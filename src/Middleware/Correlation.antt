-- ===== src/Middleware/Correlation.antt =====
-- The id of a request in the row RequestID, Logging, Recovery of middleware/: in the response, in
-- the handler's context and in the record of the request.
use core_shared.Base.{
  ℕ, Text, codes, false, Option-cases, inl, inr, List, [], ◌∷◌, ◌++◌, text_eq, text_eq_refl,
  append_assoc, ◌≡◌, ◌∙◌, ap, refl, arith,
}
use core_shared.Apperror.{nil, as_app}
use core_shared.Http.{
  Conn, new_conn, server, conn_write_header, conn_write, Request, with_context, Exit, returned,
  panicked, Call, set_header, write_header, write, log, play_on, play, LogRecord,
}
use core_shared.Http.Server.{Exit-cases, conn_write_header_cases}
use core_shared.Http.HeaderMap.{canonical, header_set, header_get, header_get-set}
use core_shared.Http.Ctx.{Logger, logger_ctx, logger, with_value}
use core_shared.Response
use core_shared.Response.{encode, send}
use core_shared.Middleware.RequestId.{
  request_id_header, get_request_id, chosen_id, request_context, request_id,
}
use core_shared.Middleware.Logging.{
  StatusWriter, status_writer, request_attrs, completed_attrs, completed, logging,
}
use core_shared.Middleware.Recovery.{deferred, recovery}

-- A run that does not set the header of the id itself.
abbrev pub LeavesId : List Call → Type 0
LeavesId [] = Unit {0}
LeavesId (set_header k v ∷ cs) =
    (text_eq (canonical k) (canonical request_id_header) ≡ false) × LeavesId cs
LeavesId (write_header code ∷ cs) = LeavesId cs
LeavesId (write bytes ∷ cs) = LeavesId cs
LeavesId (log r ∷ cs) = LeavesId cs

abbrev pub sent_id : Conn → Text
sent_id c = header_get request_id_header c.headers

conn_write_header-headers : (code : ℕ) (c : Conn) → (conn_write_header code c).0.headers ≡ c.headers
unfolding conn_write_header
conn_write_header-headers code c = ground arith

conn_write-headers : (bytes : Text) (c : Conn) → (conn_write bytes c).0.headers ≡ c.headers
unfolding conn_write
conn_write-headers bytes c = ground arith

set_header-sent_id :
    (k v : Text) (c : Conn)
    → text_eq (canonical k) (canonical request_id_header) ≡ false
    → sent_id (record c { headers = header_set k v c.headers }) ≡ sent_id c
set_header-sent_id k v c other = header_get-set k request_id_header v c.headers ∙ rw other

play_on-sent_id :
    (cs : List Call) (end : Exit) (sw : StatusWriter Conn)
    → LeavesId cs
    → sent_id (play_on (StatusWriter Conn) (status_writer Conn server) cs end sw).0.inner
      ≡ sent_id sw.inner
unfolding play_on status_writer server
play_on-sent_id [] end sw l = refl
play_on-sent_id (set_header k v ∷ cs) end sw (other, l) =
    play_on-sent_id cs end _ l ∙ set_header-sent_id k v sw.inner other
play_on-sent_id (write_header code ∷ cs) end sw l =
    elim (Exit-cases (conn_write_header code sw.inner).1) [
      | inl back ↦
          rw (back, play_on)
            (play_on-sent_id cs end _ l
              ∙ ap (header_get request_id_header) (conn_write_header-headers code sw.inner))
      | inr (m, out) ↦
          rw (out, play_on)
            (ap (header_get request_id_header) (conn_write_header-headers code sw.inner))
    ]
play_on-sent_id (write bytes ∷ cs) end sw l =
    play_on-sent_id cs end _ l
    ∙ ap (header_get request_id_header) (conn_write-headers bytes sw.inner)
play_on-sent_id (log r ∷ cs) end sw l = play_on-sent_id cs end _ l

write_header-500_returns : (c : Conn) → (conn_write_header 500 c).1 ≡ returned
write_header-500_returns c = elim (conn_write_header_cases 500 c) [
  | inl back ↦ back
  | inr (unsent, outside) ↦ ground arith
]

encode-sent_id :
    (r : Response.Response) (sw : StatusWriter Conn)
    → sent_id (encode (StatusWriter Conn) (status_writer Conn server) r sw).inner ≡ sent_id sw.inner
unfolding encode status_writer server
encode-sent_id r sw = elim (Option-cases (Response.to_json r)) [
  | inl refused ↦ rw (refused, encode)
  | inr (fs, encoded) ↦
      rw (encoded, encode) (ap (header_get request_id_header) (conn_write-headers _ sw.inner))
]

-- The response to a panic leaves the header of the id, and returns.
error-sent_id :
    (sw : StatusWriter Conn)
    → (sent_id (Response.error (StatusWriter Conn) (status_writer Conn server) nil sw).0.inner
        ≡ sent_id sw.inner)
      × ((Response.error (StatusWriter Conn) (status_writer Conn server) nil sw).1 ≡ returned)
unfolding Response.error status_writer server as_app canonical text_eq header_get conn_write_header
error-sent_id sw =
    let start : Conn = record sw.inner {
      headers = header_set (codes "Content-Type") (codes "application/json") sw.inner.headers;
    } in
    let typed : sent_id start ≡ sent_id sw.inner =
      set_header-sent_id (codes "Content-Type") (codes "application/json") sw.inner refl in
    let sent : sent_id (conn_write_header 500 start).0 ≡ sent_id start =
      ap (header_get request_id_header) (conn_write_header-headers 500 start) in
    rw (write_header-500_returns start) (
      encode-sent_id _
            (record { inner = (conn_write_header 500 start).0; status = 500; size = sw.size })
          ∙ sent
          ∙ typed,
      refl,
    )

-- The outcome of the row inside `Logging`.
deferred-sent_id :
    (base : Logger) (stack : Text) (r : Request) (p : StatusWriter Conn × Exit)
    → (sent_id (deferred (StatusWriter Conn) (status_writer Conn server) base stack r p).0.inner
        ≡ sent_id p.0.inner)
      × ((deferred (StatusWriter Conn) (status_writer Conn server) base stack r p).1 ≡ returned)
unfolding deferred status_writer server
deferred-sent_id base stack r (sw, returned) = (refl, refl)
deferred-sent_id base stack r (sw, panicked m) = error-sent_id _

-- The response carries the id, and the last record of the request's log starts with the
-- attributes of the base logger and that id.
pub record Correlated (base : Logger) (id : Text) (c : Conn) : Type 0 where
  pub responded : sent_id c ≡ id
  pub before : List LogRecord
  pub last : LogRecord
  pub rest : Logger
  pub ended : c.logs ≡ before ++ last ∷ []
  pub named : last.attrs ≡ base ++ (codes "request_id", id) ∷ rest

completed-Correlated :
    (base : Logger) (duration : Text) (r : Request) (p : StatusWriter Conn × Exit) (id : Text)
    → p.1 ≡ returned
    → sent_id p.0.inner ≡ id
    → get_request_id r.context ≡ id
    → Correlated base id (completed Conn server (base ++ request_attrs r) duration r p).0
unfolding completed server
completed-Correlated base duration r (sw, returned) id back sent known = record {
  responded = sent;
  before = sw.inner.logs;
  last = _;
  rest =
      (codes "method", r.method)
      ∷ (codes "path", r.path)
      ∷ completed_attrs r duration sw.status sw.size;
  ended = refl;
  named =
      append_assoc base (request_attrs r) (completed_attrs r duration sw.status sw.size)
      ∙ ap
          (λ (i : Text).
            base
            ++ ((codes "request_id", i)
                ∷ (codes "method", r.method)
                ∷ (codes "path", r.path)
                ∷ completed_attrs r duration sw.status sw.size))
          known;
}
completed-Correlated base duration r (sw, panicked m) id back sent known =
    absurd (ground (arith, back))

module _ (uuid stack duration : Text) (base : Logger) (script : Request → List Call × Exit)
    (r : Request) where
  -- What the handler gets.
  abbrev pub inner_request : Request
  inner_request =
      let r' = with_context r (request_context uuid r) in
      with_context r' (with_value r'.context logger_ctx (logger (base ++ request_attrs r')))

  abbrev start : StatusWriter Conn
  start = record {
    inner = record new_conn { headers = header_set request_id_header (chosen_id uuid r) [] };
    status = 200;
    size = 0;
  }

  -- What the handler does, and what `Recovery` makes of it.
  abbrev run : StatusWriter Conn × Exit
  run =
      play_on (StatusWriter Conn) (status_writer Conn server) (script inner_request).0
        (script inner_request).1 start

  start-sent_id : sent_id start.inner ≡ chosen_id uuid r
  start-sent_id =
      header_get-set request_id_header request_id_header (chosen_id uuid r) []
      ∙ rw (text_eq_refl (canonical request_id_header))

  -- In the row RequestID, Logging, Recovery around a handler that leaves the header X-Request-ID
  -- alone, whether it returns or panics: the id that was chosen for the request is the one in the
  -- response's header, the one that the handler's context holds, and the one in the last record
  -- of the log.
  pub request_id-Correlated :
      LeavesId (script inner_request).0
      → Correlated base
          (chosen_id uuid r)
          (request_id uuid
            (logging base duration (recovery base stack (play script)))
            Conn
            server
            r
            new_conn).0
        × (get_request_id inner_request.context ≡ chosen_id uuid r)
  unfolding request_id logging recovery get_request_id request_context server
  request_id-Correlated leaves =
      let (kept, back) = deferred-sent_id base stack inner_request run in
      (
        completed-Correlated base duration (with_context r (request_context uuid r))
            (deferred (StatusWriter Conn) (status_writer Conn server) base stack inner_request run)
            (chosen_id uuid r) back
            (kept
              ∙ play_on-sent_id (script inner_request).0 (script inner_request).1 start leaves
              ∙ start-sent_id)
            refl,
        refl,
      )
