-- ===== src/Middleware/Timeout.antt =====
-- middleware/timeout.go: the handler's goroutine and the goroutine that waits for it, over one
-- connection, in every order. A run of the handler is the calls that it makes on its writer and
-- how it ends.
pub mod Transparent
pub mod Late
use core_shared.Base.{ℕ, Text, codes, Bool, true, false, none, some, List, [], ◌∷◌, ◌≡◌}
use core_shared.Apperror.{because, to_error, err_timeout}
use core_shared.Http.{
  Conn, new_conn, server, Exit, returned, panicked, Call, set_header, write_header, write, log,
}
use core_shared.Response

-- `ctx.Err()`: nil, DeadlineExceeded or Canceled.
pub data CtxState : Type 0 where
  live expired cancelled : CtxState

-- The goroutine of the middleware is in its `select`, or has returned.
pub data Main : Type 0 where
  waiting gone : Main

-- `closed` is the channel `done`; `crashed` says that a panic has ended the process.
pub record Race : Type 0 where
  pub conn : Conn
  pub pending : List Call
  pub closed : Bool
  pub ctx : CtxState
  pub main : Main
  pub crashed : Bool

-- One call of the handler on the server's writer.
unfoldable pub run_call : Call → Conn → Conn × Exit
unfolding server
run_call (set_header k v) c = (server.set_header k v c, returned)
run_call (write_header code) c = server.write_header code c
run_call (write bytes) c = ((server.write bytes c).0, returned)
run_call (log r) c = (server.log r c, returned)

-- The deferred `cancel`.
abbrev pub cancel_ctx : CtxState → CtxState
cancel_ctx live = cancelled
cancel_ctx state = state

-- What the middleware writes when the deadline has passed.
unfoldable pub write_timeout : Conn → Conn
write_timeout c =
    (Response.error Conn server (because (to_error (err_timeout (codes "request timeout")))) c).0

-- A panic of the handler is in a goroutine with no `recover`: it ends the process.
pub data Step (end : Exit) : Race → Race → Type 0 where
  call :
      (s : Race) {c : Call} {cs : List Call}
      → s.crashed ≡ false
      → s.pending ≡ c ∷ cs
      → (run_call c s.conn).1 ≡ returned
      → Step end s (record s { conn = (run_call c s.conn).0; pending = cs })
  call_panics :
      (s : Race) {c : Call} {cs : List Call} {m : Text}
      → s.crashed ≡ false
      → s.pending ≡ c ∷ cs
      → (run_call c s.conn).1 ≡ panicked m
      → Step end s (record s { crashed = true })
  finish :
      (s : Race)
      → s.crashed ≡ false
      → s.pending ≡ []
      → s.closed ≡ false
      → end ≡ returned
      → Step end s (record s { closed = true })
  end_panics :
      (s : Race) {m : Text}
      → s.crashed ≡ false
      → s.pending ≡ []
      → end ≡ panicked m
      → Step end s (record s { crashed = true })
  expire : (s : Race) → s.crashed ≡ false → s.ctx ≡ live → Step end s (record s { ctx = expired })
  cancel : (s : Race) → s.crashed ≡ false → s.ctx ≡ live → Step end s (record s { ctx = cancelled })
  done :
      (s : Race)
      → s.crashed ≡ false
      → s.main ≡ waiting
      → s.closed ≡ true
      → Step end s (record s { main = gone; ctx = cancel_ctx s.ctx })
  timed_out :
      (s : Race)
      → s.crashed ≡ false
      → s.main ≡ waiting
      → s.ctx ≡ expired
      → Step end s (record s { main = gone; conn = write_timeout s.conn })
  was_cancelled :
      (s : Race)
      → s.crashed ≡ false
      → s.main ≡ waiting
      → s.ctx ≡ cancelled
      → Step end s (record s { main = gone })

abbrev pub initial : List Call → Race
initial calls = record {
  conn = new_conn;
  pending = calls;
  closed = false;
  ctx = live;
  main = waiting;
  crashed = false;
}

-- The states that a request reaches whose handler makes these calls and ends so.
pub data Reach (calls : List Call) (end : Exit) : Race → Type 0 where
  start : Reach calls end (initial calls)
  next : {s t : Race} → Reach calls end s → Step end s t → Reach calls end t
