-- ===== src/Response/Envelope.antt =====
-- What response/response.go puts on the server's connection for an error.
use core_shared.Base.{ℕ, ◌≤◌, Text, codes, false, none, some, [], ◌∷◌, ◌++◌, ◌≡◌, refl, arith}
use core_shared.Json.{Json, bool, str, arr, obj, item, nil, Fields, done, field, render}
use core_shared.Apperror.{AppError, MaybeError}
use core_shared.Http.{Conn, server, returned}
use core_shared.Http.Server.{conn_write_header-final, conn_write-final}
use core_shared.Http.HeaderMap.{header_set}
use core_shared.Response.{
  to_json, item_json, items_json, encode, send, error, reported, error_response,
}

-- The object that a client reads for the error `a`: `class` is left out if it is empty.
abbrev pub class_then : Text → Fields → Fields
class_then [] rest = rest
class_then (c ∷ t) rest = field (codes "class") (str (c ∷ t)) rest

abbrev pub error_object : AppError → Json
error_object a = obj (
    field (codes "status") (bool false) (
      field (codes "errors")
        (arr (
          item
            (obj (
              field (codes "code") (str a.code)
                (class_then a.class (field (codes "message") (str a.message) done))))
            nil))
        (field (codes "error")
          (obj (field (codes "code") (str a.code) (field (codes "message") (str a.message) done)))
          done)))

class_then_lem :
    (class : Text) (code message : Text)
    → item_json
        (record { code = code; class = class; message = message; input_field = []; meta = done })
      ≡ obj (
          field
            (codes "code")
            (str code)
            (class_then class (field (codes "message") (str message) done)))
unfolding item_json
class_then_lem [] code message = refl
class_then_lem (c ∷ t) code message = refl

pub to_json-error_response :
    (a : AppError)
    → (fs : Fields) × (to_json (error_response a) ≡ some fs) × (error_object a ≡ obj fs)
unfolding to_json items_json
to_json-error_response a = (_, rw class_then_lem, refl)

send-unsent :
    (code : ℕ) (a : AppError) (c : Conn)
    → c.status ≡ none
    → 200 ≤ code
    → code ≤ 999
    → ¬ (code ≡ 204)
    → ¬ (code ≡ 304)
    → send Conn server code (error_response a) c ≡ (
      record c {
        headers = header_set (codes "Content-Type") (codes "application/json") c.headers;
        status = some code;
        body = c.body ++ (render (error_object a) ++ b'\n' ∷ []);
      },
      returned,
    )
unfolding send encode server
send-unsent code a c unsent lo hi no204 no304 =
    let (fs, encoded, same) = to_json-error_response a in
    let start : Conn = record c {
      headers = header_set (codes "Content-Type") (codes "application/json") c.headers;
    } in
    ground (
      arith,
      encoded,
      same,
      conn_write_header-final code start unsent lo hi,
      conn_write-final (render (obj fs) ++ b'\n' ∷ []) (record start { status = some code }) code
          refl lo no204 no304,
    )

-- On a connection whose final status is not out, `Error` returns: it sends the status of the
-- error that `As` finds (or 500) and the JSON content type, and appends the envelope of that error
-- to the body, if that status is a final one that takes a body.
pub error-unsent :
    (err : MaybeError) (c : Conn)
    → c.status ≡ none
    → 200 ≤ (reported err).http_status
    → (reported err).http_status ≤ 999
    → ¬ ((reported err).http_status ≡ 204)
    → ¬ ((reported err).http_status ≡ 304)
    → error Conn server err c ≡ (
      record c {
        headers = header_set (codes "Content-Type") (codes "application/json") c.headers;
        status = some (reported err).http_status;
        body = c.body ++ (render (error_object (reported err)) ++ b'\n' ∷ []);
      },
      returned,
    )
unfolding error
error-unsent err = send-unsent (reported err).http_status (reported err)
