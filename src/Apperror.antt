-- ===== src/Apperror.antt =====
-- apperror/errors.go: the typed application error, its factories, and `As`, with the error values
-- of Go that it meets (`errors.New`, `fmt.Errorf` with `%w`, `errors.Join`).
pub mod Codes
pub mod Chain
use core_shared.Base.{ℕ, Text, codes, Option, none, some, ◌++◌, [], ◌∷◌, length, ltb, Bool}

-- A text: `NewCoded` takes any.
abbrev pub Class : Type 0
Class = Text

abbrev pub class_v : Class
class_v = codes "V"

abbrev pub class_b : Class
class_b = codes "B"

abbrev pub class_s : Class
class_s = codes "S"

-- A value of Go's interface `error` that is not nil, and one that may be. `app` has the fields
-- of `AppError` in their order; `joined` is the value that `errors.Join` makes.
mutual
  pub data Error : Type 0 where
    plain : Text → Error
    wrapped : Text → Error → Error
    joined : Errors → Error
    app :
        (code message : Text) (http_status : ℕ)
        → MaybeError
        → (class : Class) (service feature name : Text) → Error

  pub data MaybeError : Type 0 where
    nil : MaybeError
    because : Error → MaybeError

  pub data Errors : Type 0 where
    end : Errors
    also : Error → Errors → Errors

pub record AppError : Type 0 where
  pub code : Text
  pub message : Text
  pub http_status : ℕ
  pub internal : MaybeError
  pub class : Class
  pub service : Text
  pub feature : Text
  pub name : Text

-- The pointer as a value of the interface `error`.
abbrev pub to_error : AppError → Error
to_error e = app e.code e.message e.http_status e.internal e.class e.service e.feature e.name

-- The method `Error` of each kind of value. `errors.Join` puts a newline between the texts, and
-- `fmt.Errorf("…: %w", err)` puts ": " before that of the wrapped error.
unfoldable mutual
  pub message_of : Error → Text
  message_of (plain m) = m
  message_of (wrapped m e) = m ++ codes ": " ++ message_of e
  message_of (joined es) = join_messages es
  message_of (app code m status cause class service feature name) =
      (codes "[" ++ code ++ codes "] " ++ m) ++ cause_suffix cause

  pub cause_suffix : MaybeError → Text
  cause_suffix nil = []
  cause_suffix (because e) = codes ": " ++ message_of e

  pub join_messages : Errors → Text
  join_messages end = []
  join_messages (also e es) = message_of e ++ join_rest es

  pub join_rest : Errors → Text
  join_rest end = []
  join_rest (also e es) = codes "\n" ++ message_of e ++ join_rest es

abbrev pub unwrap : AppError → MaybeError
unwrap e = e.internal

-- `fmt.Sprintf("%s-%s-%s-%s", svc, feat, class, name)`
unfoldable pub coded : Text → Text → Class → Text → Text
coded svc feat class name = svc ++ b'-' ∷ (feat ++ b'-' ∷ (class ++ b'-' ∷ name))

unfoldable pub new_coded : Text → Text → Class → Text → Text → ℕ → AppError
new_coded svc feat class name message http_status = record {
  code = coded svc feat (class) name;
  message = message;
  http_status = http_status;
  internal = nil;
  class = class;
  service = svc;
  feature = feat;
  name = name;
}

unfoldable pub v : Text → Text → Text → Text → AppError
unfolding new_coded
v svc feat name message = new_coded svc feat class_v name message 400

unfoldable pub b : Text → Text → Text → Text → ℕ → AppError
unfolding new_coded
b svc feat name message http_status = new_coded svc feat class_b name message http_status

unfoldable pub s : Text → Text → Text → Text → MaybeError → AppError
unfolding new_coded
s svc feat name message err =
    let a : AppError = new_coded svc feat class_s name message 500 in record a { internal = err }

unfoldable pub new : Text → Text → ℕ → AppError
new code message http_status = record {
  code = code;
  message = message;
  http_status = http_status;
  internal = nil;
  class = [];
  service = [];
  feature = [];
  name = [];
}

unfoldable pub wrap : Text → Text → ℕ → MaybeError → AppError
wrap code message http_status err = record {
  code = code;
  message = message;
  http_status = http_status;
  internal = err;
  class = [];
  service = [];
  feature = [];
  name = [];
}

unfoldable pub err_bad_request : Text → AppError
unfolding new
err_bad_request message = new (codes "BAD_REQUEST") message 400

unfoldable pub err_not_found : Text → AppError
unfolding new
err_not_found message = new (codes "NOT_FOUND") message 404

unfoldable pub err_unauthorized : Text → AppError
unfolding new
err_unauthorized message = new (codes "UNAUTHORIZED") message 401

unfoldable pub err_forbidden : Text → AppError
unfolding new
err_forbidden message = new (codes "FORBIDDEN") message 403

unfoldable pub err_internal : Text → MaybeError → AppError
unfolding wrap
err_internal message err = wrap (codes "INTERNAL_ERROR") message 500 err

unfoldable pub err_conflict : Text → AppError
unfolding new
err_conflict message = new (codes "CONFLICT") message 409

unfoldable pub err_timeout : Text → AppError
unfolding new
err_timeout message = new (codes "TIMEOUT") message 504

unfoldable pub err_too_large : Text → AppError
unfolding new
err_too_large message = new (codes "PAYLOAD_TOO_LARGE") message 413

-- `errors.As` with an `*AppError` target: the value itself, else what it wraps, the parts of a
-- joined error from left to right and each to its bottom. `As` returns the target and whether
-- it was found.
unfoldable mutual
  pub find_app : Error → Option AppError
  find_app (plain m) = none
  find_app (wrapped m e) = find_app e
  find_app (joined es) = find_apps es
  find_app (app code m status cause class service feature name) = some (record {
    code = code;
    message = m;
    http_status = status;
    internal = cause;
    class = class;
    service = service;
    feature = feature;
    name = name;
  })

  pub find_apps : Errors → Option AppError
  find_apps end = none
  find_apps (also e es) = elim (find_app e) [ some a ↦ some a | none ↦ find_apps es ]

-- `As`; `errors.As` of a nil error is false.
unfoldable pub as_app : MaybeError → Option AppError
unfolding find_app find_apps
as_app nil = none
as_app (because e) = find_app e
