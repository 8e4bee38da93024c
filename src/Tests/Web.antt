-- ===== src/Tests/Web.antt =====
-- The HTTP middlewares of middleware/ at concrete inputs.
use core_shared.Base.{text_eq, codes, some, List, [], ◌∷◌, ◌++◌, ◌≡◌, refl, arith}
use core_shared.Json.{render}
use core_shared.Http.{
  Handler, Conn, new_conn, server, conn_write, conn_write_header, Request, Exit, returned, panicked,
  Call, write_header, write, LogRecord, play, play_on,
}
use core_shared.Http.HeaderMap.{header_get, header_set, canonical}
use core_shared.Http.Ctx.{background}
use core_shared.Response.{internal_server_error}
use core_shared.Response.Envelope.{error_object}
use core_shared.Middleware.RequestId.{chosen_id}
use core_shared.Middleware.Logging.{logging, request_attrs}
use core_shared.Middleware.Logging.Laws.{logging_exact, completed_record}
use core_shared.Middleware.Recovery.{recovery, panic_record}
use core_shared.Middleware.Recovery.Laws.{recovery_returns, recovery_unsent}

abbrev get_users : Request
get_users = record {
  method = codes "GET";
  path = codes "/users";
  headers = (codes "X-Request-Id", codes "r-1") ∷ [];
  remote_addr = codes "10.0.0.1";
  user_agent = codes "curl";
  context = background;
}

-- A handler that panics at once.
abbrev broken : Handler
broken = play (λ _. ([], panicked (codes "nil map")))

recovery_returns_example : (recovery [] [] broken Conn server get_users new_conn).1 ≡ returned
recovery_returns_example = recovery_returns [] [] broken get_users new_conn

recovery_unsent_example : recovery [] [] broken Conn server get_users new_conn ≡ (
  record {
    headers = header_set (codes "Content-Type") (codes "application/json") [];
    status = some 500;
    interim = [];
    body = render (error_object internal_server_error) ++ b'\n' ∷ [];
    logs = panic_record [] [] get_users (codes "nil map") ∷ [];
  },
  returned,
)
unfolding play_on
recovery_unsent_example =
    recovery_unsent [] [] broken get_users new_conn new_conn (codes "nil map") refl refl

abbrev hello : Request → List Call × Exit
hello r = (write_header 201 ∷ write (codes "hello") ∷ [], returned)

logging_exact_example :
    (before : List LogRecord) × ((logging []
        (codes "1ms")
        (play hello)
        Conn
        server
        get_users
        new_conn).0.logs
      ≡ before
        ++ completed_record
            (request_attrs get_users)
            (codes "1ms")
            get_users
            (logging [] (codes "1ms") (play hello) Conn server get_users new_conn).0
          ∷ [])
unfolding logging play_on server conn_write conn_write_header
logging_exact_example =
    logging_exact [] (codes "1ms") hello get_users (refl, omega arith, omega arith, tt) refl

request_id_read : chosen_id (codes "u") get_users ≡ codes "r-1"
unfolding header_get canonical text_eq
request_id_read = refl
