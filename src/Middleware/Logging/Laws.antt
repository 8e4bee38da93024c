-- ===== src/Middleware/Logging/Laws.antt =====
-- What the log record of middleware/logging.go says of the response that was sent.
use core_shared.Base.{
  ℕ, ◌≤◌, Text, codes, Bool, true, false, none, List, [], ◌∷◌, ◌++◌, length, length-append, ◌≡◌,
  refl, arith,
}
use core_shared.Http.{
  Conn, new_conn, server, with_status, conn_write, Request, with_context, Exit, returned, panicked,
  Call, set_header, write_header, write, log, play_on, play, LogRecord, info,
}
use core_shared.Http.Server.{conn_write_header-final}
use core_shared.Http.Ctx.{Logger, logger_ctx, logger, with_value}
use core_shared.Middleware.Logging.{
  StatusWriter, status_writer, request_attrs, completed_attrs, completed, logging,
}

-- A run that sends at most one status, a final one, before anything is written; `seen` says that
-- a status is out already.
abbrev pub OneStatus : Bool → List Call → Type 0
OneStatus seen [] = Unit
OneStatus seen (set_header k v ∷ cs) = OneStatus seen cs
OneStatus seen (write_header code ∷ cs) =
    (seen ≡ false) × (200 ≤ code) × (code ≤ 999) × OneStatus true cs
OneStatus seen (write bytes ∷ cs) = OneStatus true cs
OneStatus seen (log r ∷ cs) = OneStatus seen cs

-- The noted status is the one that the client gets, and the noted size that of the body.
record IsExact (seen : Bool) (sw : StatusWriter Conn) : Type 0 where
  status : sw.status ≡ with_status sw.inner
  size : sw.size ≡ length sw.inner.body
  unsent : seen ≡ false → sw.inner.status ≡ none

write-IsExact :
    (seen : Bool) (bytes : Text) (sw : StatusWriter Conn)
    → IsExact seen sw
    → IsExact true ((status_writer Conn server).write bytes sw).0
unfolding status_writer server conn_write
write-IsExact seen bytes sw x = ground (arith, length-append sw.inner.body bytes)

write_header-IsExact :
    (seen : Bool) (code : ℕ) (sw : StatusWriter Conn)
    → IsExact seen sw
    → seen ≡ false
    → 200 ≤ code
    → code ≤ 999
    → IsExact true ((status_writer Conn server).write_header code sw).0
      × (((status_writer Conn server).write_header code sw).1 ≡ returned)
unfolding status_writer server
write_header-IsExact seen code sw x e lo hi =
    let sent = conn_write_header-final code sw.inner (x.unsent e) lo hi in
    (record { status = rw sent; size = rw sent x.size; unsent = λ f. cc }, rw sent)

set_header-IsExact :
    (seen : Bool) (k v : Text) (sw : StatusWriter Conn)
    → IsExact seen sw
    → IsExact seen ((status_writer Conn server).set_header k v sw)
unfolding status_writer server
set_header-IsExact seen k v sw x = record { status = x.status; size = x.size; unsent = x.unsent }

log-IsExact :
    (seen : Bool) (r : LogRecord) (sw : StatusWriter Conn)
    → IsExact seen sw
    → IsExact seen ((status_writer Conn server).log r sw)
unfolding status_writer server
log-IsExact seen r sw x = record { status = x.status; size = x.size; unsent = x.unsent }

play_on-IsExact :
    (cs : List Call) (end : Exit) (seen : Bool) (sw : StatusWriter Conn)
    → OneStatus seen cs
    → IsExact seen sw
    → (after : Bool) × IsExact after
        (play_on (StatusWriter Conn) (status_writer Conn server) cs end sw).0
unfolding play_on
play_on-IsExact [] end seen sw h x = (seen, x)
play_on-IsExact (set_header k v ∷ cs) end seen sw h x =
    play_on-IsExact cs end seen _ h (set_header-IsExact seen k v sw x)
play_on-IsExact (write_header code ∷ cs) end seen sw (e, lo, hi, h) x =
    let (exact, back) = write_header-IsExact seen code sw x e lo hi in
    rw (back, play_on) (play_on-IsExact cs end true _ h exact)
play_on-IsExact (write bytes ∷ cs) end seen sw h x =
    play_on-IsExact cs end true _ h (write-IsExact seen bytes sw x)
play_on-IsExact (log r ∷ cs) end seen sw h x =
    play_on-IsExact cs end seen _ h (log-IsExact seen r sw x)

-- The record that is logged at the end of a request whose response is the connection `c`.
abbrev pub completed_record : Logger → Text → Request → Conn → LogRecord
completed_record req_logger duration r c = record {
  level = info;
  message = codes "request completed";
  attrs = req_logger ++ completed_attrs r duration (with_status c) (length c.body);
}

completed-IsExact :
    (req_logger : Logger) (duration : Text) (r : Request) (after : Bool)
    (p : StatusWriter Conn × Exit)
    → IsExact after p.0
    → (completed Conn server req_logger duration r p).1 ≡ returned
    → (before : List LogRecord) × ((completed Conn server req_logger duration r p).0.logs
        ≡ before
          ++ completed_record req_logger duration r
              (completed Conn server req_logger duration r p).0
            ∷ [])
unfolding completed server
completed-IsExact req_logger duration r after (sw, returned) x e =
    (sw.inner.logs, rw (x.status, x.size))
completed-IsExact req_logger duration r after (sw, panicked m) x e = cc

-- If the handler returns, and its run sends at most one status, a final one and before anything
-- is written, then the last record that `Logging` logs carries the status that the client gets
-- (200 if the run sent none) and the number of bytes of the body that the writer accepted.
pub logging_exact :
    (base : Logger) (duration : Text) (script : Request → List Call × Exit) (r : Request)
    → OneStatus false
        (script
          (with_context r (with_value r.context logger_ctx (logger (base ++ request_attrs r))))).0
    → (logging base duration (play script) Conn server r new_conn).1 ≡ returned
    → (before : List LogRecord) × ((logging base duration
          (play script)
          Conn
          server
          r
          new_conn).0.logs
        ≡ before
          ++ completed_record
              (base ++ request_attrs r)
              duration
              r
              (logging base duration (play script) Conn server r new_conn).0
            ∷ [])
unfolding logging
logging_exact base duration script r one back =
    let req_logger : Logger = base ++ request_attrs r in
    let run = script (with_context r (with_value r.context logger_ctx (logger req_logger))) in
    let (after, exact) =
      play_on-IsExact run.0 run.1 false (record { inner = new_conn; status = 200; size = 0 }) one
        (record { status = refl; size = refl; unsent = λ _. refl }) in
    completed-IsExact req_logger duration r after _ exact back
