-- ===== src/Tests/Deadline.antt =====
-- middleware/timeout.go at concrete runs.
use core_shared.Base.{codes, [], ◌∷◌}
use core_shared.Http.{Conn, new_conn, server, returned, write_header, write, play_on}
use core_shared.Middleware.Timeout.{Race, initial, run_call, write_timeout}
use core_shared.Middleware.Timeout.Late.{Overrun, timeout_late}

-- The handler writes a byte and finishes.
abbrev wrote : Race
wrote = record (initial (write (codes "x") ∷ [])) {
  conn = (run_call (write (codes "x")) new_conn).0;
  pending = [];
}

timeout_late_example :
    Overrun
      (write_header 201 ∷ [])
      returned
      (play_on Conn server (write_header 201 ∷ []) returned (write_timeout new_conn)).0
timeout_late_example = timeout_late (write_header 201 ∷ []) returned
