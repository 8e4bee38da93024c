-- ===== src/Response.antt =====
-- response/response.go: the response envelope, and the functions that write it.
pub mod Envelope
pub mod Errors
pub mod Unambiguous
use core_shared.Base.{
  ℕ, String, Text, codes, Bool, true, false, Option, none, some, List, [], ◌∷◌, ◌++◌, is_empty,
}
use core_shared.Json.{
  Json, null, bool, str, arr, obj, Items, nil, item, Fields, done, field, render,
}
use core_shared.Apperror.{AppError, MaybeError, as_app, class_s}
use core_shared.Http.{Writer, Exit, returned, panicked}

-- `ErrorItem`; `meta` is the map's entries, none if it is nil or empty.
pub record ErrorItem : Type 0 where
  pub code : Text
  pub class : Text
  pub message : Text
  pub input_field : Text
  pub meta : Fields

pub record ErrorBody : Type 0 where
  pub code : Text
  pub message : Text

-- A value of type `interface{}`: nil, a value that `json.Marshal` takes, or one that it refuses.
pub data Payload : Type 0 where
  nil_payload : Payload
  value : Json → Payload
  unsupported : Payload

pub record Response : Type 0 where
  pub status : Bool
  pub payload : Payload
  pub errors : List ErrorItem
  pub trace_id : Text
  pub request_id : Text
  pub success : Bool
  pub legacy_error : Option ErrorBody

-- A field with `omitempty` is left out if it has the zero value.
abbrev text_field : String → Text → Fields → Fields
text_field k [] rest = rest
text_field k (c ∷ t) rest = field (codes k) (str (c ∷ t)) rest

abbrev flag_field : String → Bool → Fields → Fields
flag_field k false rest = rest
flag_field k true rest = field (codes k) (bool true) rest

abbrev meta_field : Fields → Fields
meta_field done = done
meta_field (field k x fs) = field (codes "meta") (obj (field k x fs)) done

pub item_json : ErrorItem → Json
item_json e = obj (
    field (codes "code") (str e.code) (
      text_field "class" e.class (
        field (codes "message") (str e.message)
          (text_field "field" e.input_field (meta_field e.meta)))))

pub items_json : List ErrorItem → Items
unfolding item_json
items_json [] = nil
items_json (e ∷ es) = item (item_json e) (items_json es)

abbrev errors_field : List ErrorItem → Fields → Fields
errors_field [] rest = rest
errors_field (e ∷ es) rest = field (codes "errors") (arr (items_json (e ∷ es))) rest

abbrev body_json : ErrorBody → Json
body_json b = obj (field (codes "code") (str b.code) (field (codes "message") (str b.message) done))

abbrev error_field : Option ErrorBody → Fields
error_field none = done
error_field (some b) = field (codes "error") (body_json b) done

abbrev data_field : Payload → Fields → Option Fields
data_field nil_payload rest = some rest
data_field (value j) rest = some (field (codes "data") j rest)
data_field unsupported rest = none

-- The object that `json.Marshal` makes of a `Response`; none if the payload is refused.
unfoldable pub to_json : Response → Option Fields
to_json r =
    let rest : Fields = errors_field r.errors (
      text_field "trace_id" r.trace_id (
        text_field "request_id" r.request_id
          (flag_field "success" r.success (error_field r.legacy_error)))) in
    elim (data_field r.payload rest) [
      | none ↦ none
      | some fs ↦ some (field (codes "status") (bool r.status) fs)
    ]

module _ (S : Type 0) (w : Writer S) where
  -- `json.NewEncoder(w).Encode(r)`: one write of the text and a newline, none on an error.
  unfoldable pub encode : Response → S → S
  encode r s = elim (to_json r) [
    | none ↦ s
    | some fs ↦ (w.write (render (obj fs) ++ b'\n' ∷ []) s).0
  ]

  -- The steps that all the functions share: content type, status, body. A panic of `WriteHeader`
  -- skips the body.
  pub send : ℕ → Response → S → S × Exit
  unfolding encode
  send code r s =
      let (s', exit) =
        w.write_header code (w.set_header (codes "Content-Type") (codes "application/json") s) in
      elim exit [ returned ↦ (encode r s', returned) | panicked m ↦ (s', panicked m) ]

  unfoldable pub json : ℕ → Payload → S → S × Exit
  unfolding send
  json status payload s =
      send status
        (record {
          status = true;
          payload = payload;
          errors = [];
          trace_id = [];
          request_id = [];
          success = true;
          legacy_error = none;
        })
        s

  unfoldable pub ok : Payload → S → S × Exit
  unfolding json
  ok payload s = json 200 payload s

  unfoldable pub created : Payload → S → S × Exit
  unfolding json
  created payload s = json 201 payload s

  unfoldable pub accepted : Payload → S → S × Exit
  unfolding json
  accepted payload s = json 202 payload s

  unfoldable pub no_content : S → S × Exit
  no_content s = w.write_header 204 s

-- The error that is reported when `As` finds none.
abbrev pub internal_server_error : AppError
internal_server_error = record {
  code = codes "INTERNAL_ERROR";
  message = codes "Internal Server Error";
  http_status = 500;
  internal = MaybeError.nil;
  class = class_s;
  service = [];
  feature = [];
  name = [];
}

abbrev pub reported : MaybeError → AppError
reported err = elim (as_app err) [ some a ↦ a | none ↦ internal_server_error ]

abbrev pub error_response : AppError → Response
error_response a = record {
  status = false;
  payload = nil_payload;
  errors =
      record { code = a.code; class = a.class; message = a.message; input_field = []; meta = done }
      ∷ [];
  trace_id = [];
  request_id = [];
  success = false;
  legacy_error = some (record { code = a.code; message = a.message });
}

abbrev first_body : List ErrorItem → Option ErrorBody
first_body [] = none
first_body (e ∷ es) = some (record { code = e.code; message = e.message })

abbrev pub multi_response : List ErrorItem → Response
multi_response items = record {
  status = false;
  payload = nil_payload;
  errors = items;
  trace_id = [];
  request_id = [];
  success = false;
  legacy_error = first_body items;
}

module _ (S : Type 0) (w : Writer S) where
  unfoldable pub error : MaybeError → S → S × Exit
  unfolding send
  error err s = let a : AppError = reported err in send S w a.http_status (error_response a) s

  unfoldable pub error_multi : ℕ → List ErrorItem → S → S × Exit
  unfolding send
  error_multi status items s = send S w status (multi_response items) s
