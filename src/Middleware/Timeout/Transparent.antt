-- ===== src/Middleware/Timeout/Transparent.antt =====
-- While the deadline has not passed, `Timeout` leaves the response alone.
use core_shared.Base.{true, List, [], ◌∷◌, ◌≡◌, ◌≢◌, refl}
use core_shared.Http.{
  Conn, new_conn, server, Exit, returned, Call, set_header, write_header, write, log, play_on,
}
use core_shared.Middleware.Timeout.{Race, expired, run_call}

-- The handler's own run goes on with the calls that are left.
pub play_on-run_call :
    (c : Call) (cs : List Call) (end : Exit) (conn : Conn)
    → (run_call c conn).1 ≡ returned
    → play_on Conn server (c ∷ cs) end conn ≡ play_on Conn server cs end (run_call c conn).0
unfolding play_on run_call
play_on-run_call (set_header k v) cs end conn e = refl
play_on-run_call (write_header code) cs end conn e = rw (e, play_on)
play_on-run_call (write bytes) cs end conn e = refl
play_on-run_call (log r) cs end conn e = refl

record OnTrack (calls : List Call) (end : Exit) (s : Race) : Type 0 where
  same :
      s.ctx ≢ expired
      → play_on Conn server s.pending end s.conn ≡ play_on Conn server calls end new_conn
  drained : s.closed ≡ true → s.pending ≡ []
