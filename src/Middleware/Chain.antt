-- ===== src/Middleware/Chain.antt =====
-- The middlewares of middleware/ put in a row.
use core_shared.Base.{ℕ, ◌≤◌, Text, codes, some, List, [], ◌∷◌, ◌++◌, ◌≡◌, sym, refl, arith}
use mathlib.Core.Path.{subst}
use core_shared.Apperror.{nil, as_app}
use core_shared.Http.{
  Conn, new_conn, server, Request, with_context, Exit, returned, panicked, write_header, play_on,
  play, LogRecord, info,
}
use core_shared.Http.Server.{conn_write_header-final, conn_write_header-sent, conn_write-sent}
use core_shared.Http.HeaderMap.{header_set}
use core_shared.Http.Ctx.{Logger, logger_ctx, logger, with_value}
use core_shared.Json
use core_shared.Response
use core_shared.Response.{internal_server_error, encode, send, error_response, to_json}
use core_shared.Response.Envelope.{to_json-error_response}
use core_shared.Middleware.Logging.{
  StatusWriter, status_writer, request_attrs, completed_attrs, completed, logging,
}
use core_shared.Middleware.Recovery.{deferred, recovery}

-- What `statusWriter` notes of an internal error that comes after a status was sent.
record Noted (sent : ℕ) (p : StatusWriter Conn × Exit) : Type 0 where
  back : p.1 ≡ returned
  status : p.0.status ≡ 500
  kept : p.0.inner.status ≡ some sent

error-Noted :
    (sw : StatusWriter Conn) (sent : ℕ)
    → sw.inner.status ≡ some sent
    → Noted sent (Response.error (StatusWriter Conn) (status_writer Conn server) nil sw)
unfolding Response.error status_writer server as_app
error-Noted sw sent e =
    let (fs, encoded, _) = to_json-error_response internal_server_error in
    let start : Conn = record sw.inner {
      headers = header_set (codes "Content-Type") (codes "application/json") sw.inner.headers;
    } in
    let out = conn_write_header-sent 500 start sent e in
    record {
      back = ground (arith, encoded, out);
      status = ground (arith, encoded, out);
      kept = ground (
        arith,
        encoded,
        out,
        conn_write-sent (Json.render (Json.obj fs) ++ b'\n' ∷ []) start sent e,
      );
    }

-- The record that ends a request, with its status and size.
abbrev pub status_record : Logger → Text → Request → ℕ → ℕ → LogRecord
status_record req_logger duration r status size = record {
  level = info;
  message = codes "request completed";
  attrs = req_logger ++ completed_attrs r duration status size;
}

-- The client got status `sent`, and the last record says `logged`.
pub record Disagreement (req_logger : Logger) (duration : Text) (r : Request) (sent logged : ℕ)
    (c : Conn) : Type 0 where
  pub got : c.status ≡ some sent
  pub before : List LogRecord
  pub size : ℕ
  pub last : c.logs ≡ before ++ status_record req_logger duration r logged size ∷ []

completed-Noted :
    (req_logger : Logger) (duration : Text) (r : Request) (sent : ℕ) (p : StatusWriter Conn × Exit)
    → Noted sent p
    → Disagreement req_logger duration r sent 500 (completed Conn server req_logger duration r p).0
unfolding completed server
completed-Noted req_logger duration r sent (sw, returned) n = record {
  got = n.kept;
  before = sw.inner.logs;
  size = sw.size;
  last = rw n.status;
}
completed-Noted req_logger duration r sent (sw, panicked m) n = absurd (ground (arith, n.back))

module _ (base : Logger) (duration stack m : Text) (r : Request) (code : ℕ) where
  abbrev inner_request : Request
  inner_request =
      with_context r (with_value r.context logger_ctx (logger (base ++ request_attrs r)))

  abbrev sent_writer : StatusWriter Conn
  sent_writer = record { inner = record new_conn { status = some code }; status = code; size = 0 }

  played :
      200 ≤ code
      → code ≤ 999
      → play_on
          (StatusWriter Conn)
          (status_writer Conn server)
          (write_header code ∷ [])
          (panicked m)
          (record { inner = new_conn; status = 200; size = 0 })
        ≡ (sent_writer, panicked m)
  unfolding play_on status_writer server
  played lo hi = ground (arith, conn_write_header-final code new_conn refl lo hi)

  deferred-Noted : Noted code (
      deferred
        (StatusWriter Conn)
        (status_writer Conn server)
        base
        stack
        inner_request
        (sent_writer, panicked m))
  unfolding deferred status_writer server
  deferred-Noted = error-Noted _ code refl

  -- Where `Recovery` stands inside `Logging` and the handler panics after it has sent a final
  -- status, the client gets that status, and the record of the request says 500.
  pub logging-recovery_mismatch :
      200 ≤ code
      → code ≤ 999
      → Disagreement
          (base ++ request_attrs r)
          duration
          r
          code
          500
          (logging base duration
            (recovery base stack (play (λ _. (write_header code ∷ [], panicked m))))
            Conn
            server
            r
            new_conn).0
  unfolding logging recovery
  logging-recovery_mismatch lo hi =
      completed-Noted (base ++ request_attrs r) duration r code
        (deferred (StatusWriter Conn) (status_writer Conn server) base stack inner_request (
          play_on (StatusWriter Conn) (status_writer Conn server) (write_header code ∷ [])
            (panicked m) (record { inner = new_conn; status = 200; size = 0 })))
        (subst
          (λ p.
            Noted code
              (deferred (StatusWriter Conn) (status_writer Conn server) base stack inner_request p))
          (sym (played lo hi)) deferred-Noted)
