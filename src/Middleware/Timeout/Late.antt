-- ===== src/Middleware/Timeout/Late.antt =====
-- What the handler of `Timeout` can still do when the deadline has passed.
use core_shared.Base.{
  ℕ, Text, codes, true, false, some, inl, inr, List, [], ◌∷◌, ◌++◌, ◌≡◌, refl, ◌∙◌, ap, arith,
}
use core_shared.Apperror.{because, to_error, err_timeout, as_app}
use core_shared.Json.{render}
use core_shared.Http.{
  Conn, new_conn, server, Exit, returned, panicked, Call, set_header, write_header, write, log,
  play_on, conn_write,
}
use core_shared.Http.Server.{conn_write_header-sent, conn_write-sent, conn_write-final, Exit-cases}
use core_shared.Http.HeaderMap.{header_set}
use core_shared.Response.Envelope.{error-unsent, error_object}
use core_shared.Middleware.Timeout.{
  Race, expired, waiting, gone, Step, call, call_panics, end_panics, expire, timed_out, run_call,
  write_timeout, Reach, start, next, initial,
}
use core_shared.Middleware.Timeout.Transparent.{play_on-run_call}

-- A call on a connection whose status is out returns and keeps the status.
run_call-sent :
    (c : Call) (conn : Conn) (sent : ℕ)
    → conn.status ≡ some sent
    → ((run_call c conn).1 ≡ returned) × ((run_call c conn).0.status ≡ some sent)
unfolding run_call
run_call-sent (set_header k v) conn sent e = (refl, e)
run_call-sent (write_header code) conn sent e =
    rw (conn_write_header-sent code conn sent e) (refl, e)
run_call-sent (write bytes) conn sent e = (refl, conn_write-sent bytes conn sent e)
run_call-sent (log r) conn sent e = (refl, e)

-- A state that the request reaches after the middleware has returned, with this connection.
pub record Overrun (calls : List Call) (end : Exit) (conn : Conn) : Type 0 where
  pub state : Race
  pub reached : Reach calls end state
  pub returned_before : state.main ≡ gone
  pub conn_is : state.conn ≡ conn

-- From a state where the middleware has returned and a status is out, the handler can make all
-- its calls.
run_on :
    (all cs : List Call) (end : Exit) (s : Race) (sent : ℕ)
    → Reach all end s
    → s.main ≡ gone
    → s.crashed ≡ false
    → s.pending ≡ cs
    → s.conn.status ≡ some sent
    → Overrun all end (play_on Conn server cs end s.conn).0
unfolding play_on
run_on all [] end s sent r m ok p e = record {
  state = s;
  reached = r;
  returned_before = m;
  conn_is = refl;
}
run_on all (c ∷ cs) end s sent r m ok p e =
    let (back, kept) = run_call-sent c s.conn sent e in
    let t : Race = record s { conn = (run_call c s.conn).0; pending = cs } in
    rw (play_on-run_call c cs end s.conn back)
      (run_on all cs end t sent (next r (call s ok p back)) m ok refl kept)

write_timeout-new_conn : write_timeout new_conn ≡ record new_conn {
  headers = header_set (codes "Content-Type") (codes "application/json") [];
  status = some 504;
  body = render (error_object (err_timeout (codes "request timeout"))) ++ b'\n' ∷ [];
}
unfolding write_timeout as_app err_timeout
write_timeout-new_conn =
    ap (λ (p : Conn × Exit). p.0)
      (error-unsent (because (to_error (err_timeout (codes "request timeout")))) new_conn refl
        (omega arith) (omega arith) (omega arith) (omega arith))

-- Whatever calls a handler makes, there is an order of events in which all of them reach the
-- connection after the middleware has answered 504 and returned.
pub timeout_late :
    (calls : List Call) (end : Exit)
    → Overrun calls end (play_on Conn server calls end (write_timeout new_conn)).0
timeout_late calls end =
    let s₁ : Race = record (initial calls) { ctx = expired } in
    let s₂ : Race = record s₁ { main = gone; conn = write_timeout new_conn } in
    let expires : Step end (initial calls) s₁ = expire (initial calls) refl refl in
    let answers : Step end s₁ s₂ = timed_out s₁ refl refl refl in
    run_on calls calls end s₂ 504 (next (next start expires) answers) refl refl refl
      (ap (λ (c : Conn). c.status) write_timeout-new_conn)

-- So the bytes that a handler writes can stand in the client's body behind the 504 envelope.
pub timeout_late_body :
    (bytes : Text) (end : Exit)
    → Overrun (write bytes ∷ []) end (record new_conn {
      headers = header_set (codes "Content-Type") (codes "application/json") [];
      status = some 504;
      body = (render (error_object (err_timeout (codes "request timeout"))) ++ b'\n' ∷ []) ++ bytes;
    })
unfolding play_on server
timeout_late_body bytes end =
    let l = timeout_late (write bytes ∷ []) end in
    let mixed =
      ap (λ (c : Conn). (conn_write bytes c).0) write_timeout-new_conn
      ∙ ap (λ (p : Conn × ℕ). p.0)
          (conn_write-final bytes _ 504 refl (omega arith) (omega arith) (omega arith)) in
    record {
      state = l.state;
      reached = l.reached;
      returned_before = l.returned_before;
      conn_is = l.conn_is ∙ mixed;
    }

-- The process has ended while the middleware was still waiting.
pub record Ended (calls : List Call) (end : Exit) : Type 0 where
  pub state : Race
  pub reached : Reach calls end state
  pub ended : state.crashed ≡ true
  pub not_returned : state.main ≡ waiting

crash_on :
    (all cs : List Call) (m : Text) (s : Race)
    → Reach all (panicked m) s
    → s.main ≡ waiting
    → s.crashed ≡ false
    → s.pending ≡ cs
    → Ended all (panicked m)
crash_on all [] m s r w ok p = record {
  state = record s { crashed = true };
  reached = next r (end_panics s ok p refl);
  ended = refl;
  not_returned = w;
}
crash_on all (c ∷ cs) m s r w ok p = elim (Exit-cases (run_call c s.conn).1) [
  | inl back ↦
      crash_on all cs m (record s { conn = (run_call c s.conn).0; pending = cs })
        (next r (call s ok p back)) w ok refl
  | inr (why, panics) ↦ record {
    state = record s { crashed = true };
    reached = next r (call_panics s ok p panics);
    ended = refl;
    not_returned = w;
  }
]

-- Whatever calls a handler makes before it panics under `Timeout`, there is an order of events in
-- which the panic ends the process while the middleware waits: no recovery around `Timeout` runs.
pub timeout_panic_crashes : (calls : List Call) (m : Text) → Ended calls (panicked m)
timeout_panic_crashes calls m = crash_on calls calls m (initial calls) start refl refl refl
