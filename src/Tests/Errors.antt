-- ===== src/Tests/Errors.antt =====
-- apperror/errors.go and response/response.go at concrete inputs, those of errors_test.go among
-- them.
use core_shared.Base.{codes, some, [], ◌∷◌, ◌++◌, ◌≡◌, ◌↔◌, refl, arith}
use core_shared.Json.{render}
use core_shared.Apperror.{
  class_s, Error, plain, wrapped, joined, because, end, also, AppError, to_error, message_of,
  new_coded, b, as_app, coded,
}
use core_shared.Apperror.Codes.{new_coded_unambiguous}
use core_shared.Apperror.Chain.{
  plain_lacks, First, itself, inside, among, later, FirstOf, as_app-eq-some_iff,
}
use core_shared.Http.{Conn, new_conn, server, conn_write, conn_write_header, returned}
use core_shared.Http.HeaderMap.{header_set}
use core_shared.Response.{error, to_json, ok, nil_payload}
use core_shared.Response.Envelope.{error-unsent, error_object}
use core_shared.Response.Unambiguous.{Plain, error-unambiguous}
use core_shared.Response.Errors.{redacted, error-First}

abbrev timeout : AppError
timeout =
    new_coded (codes "BAN") (codes "DOWNLOAD") class_s (codes "GRPC_TIMEOUT")
      (codes "deadline exceeded") 500

timeout_code : timeout.code ≡ codes "BAN-DOWNLOAD-S-GRPC_TIMEOUT"
unfolding new_coded coded
timeout_code = refl

new_coded_unambiguous_example :
    (codes "BAN" ≡ codes "BAN")
    × (codes "DOWNLOAD" ≡ codes "DOWNLOAD")
    × (class_s ≡ class_s)
    × (codes "GRPC-TIMEOUT" ≡ codes "GRPC-TIMEOUT")
unfolding new_coded
new_coded_unambiguous_example =
    new_coded_unambiguous (codes "BAN") (codes "DOWNLOAD") class_s (codes "GRPC-TIMEOUT") [] 500
      (codes "BAN") (codes "DOWNLOAD") class_s (codes "GRPC-TIMEOUT") [] 503 (omega arith)
      (omega arith) (omega arith) (omega arith) (omega arith) (omega arith) refl

abbrev missing : AppError
missing = b (codes "URS") (codes "USER") (codes "USER_NOT_FOUND") (codes "user not found") 404

-- The application error stands behind a plain one, under two layers.
abbrev nested : Error
nested =
    wrapped (codes "layer 1") (joined (also (plain (codes "plain")) (also (to_error missing) end)))

nested-First : First missing nested
nested-First = inside (among (later plain_lacks (FirstOf.head itself)))

as_app-eq-some_iff_example : (as_app (because nested) ≡ some missing) ↔ First missing nested
as_app-eq-some_iff_example = as_app-eq-some_iff nested missing

nested_message :
    message_of nested ≡ codes "layer 1: plain\n[URS-USER-B-USER_NOT_FOUND] user not found"
unfolding b new_coded coded message_of
nested_message = refl

error-unsent_example : error Conn server (because nested) new_conn ≡ (
  record new_conn {
    headers = header_set (codes "Content-Type") (codes "application/json") [];
    status = some 404;
    body = render (error_object missing) ++ b'\n' ∷ [];
  },
  returned,
)
unfolding as_app b
error-unsent_example =
    error-unsent (because nested) new_conn refl (omega arith) (omega arith) (omega arith)
      (omega arith)

missing-Plain : Plain missing
unfolding b new_coded coded
missing-Plain = (ground arith, ground arith, ground arith)

-- The same application error, in two places.
error-unambiguous_example :
    (missing.code ≡ missing.code)
    × (missing.class ≡ missing.class)
    × (missing.message ≡ missing.message)
unfolding as_app b error
error-unambiguous_example =
    error-unambiguous (because nested) (because (to_error missing)) (omega arith) (omega arith)
      (omega arith) (omega arith) missing-Plain missing-Plain refl

missing_body :
    render (error_object missing)
    ≡ codes
        "{\"status\":false,\"errors\":[{\"code\":\"URS-USER-B-USER_NOT_FOUND\",\"class\":\"B\",\"message\":\"user not found\"}],\"error\":{\"code\":\"URS-USER-B-USER_NOT_FOUND\",\"message\":\"user not found\"}}"
unfolding render b coded
missing_body = refl

error-First_example :
    error Conn server (because nested) new_conn
    ≡ error Conn server (because (to_error (redacted missing))) new_conn
error-First_example = error-First Conn server nested missing new_conn nested-First

ok_run : (ok Conn server nil_payload new_conn).0.body ≡ codes "{\"status\":true,\"success\":true}\n"
unfolding ok server render conn_write_header to_json conn_write
ok_run = refl
