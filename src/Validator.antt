-- ===== src/Validator.antt =====
-- validator/validator.go: what the errors of the validation library become.
pub mod Reported
use core_shared.Base.{Text, codes, List, [], ◌∷◌, ◌++◌}
use core_shared.Apperror.{Error, AppError, MaybeError, nil, because, to_error, err_bad_request}

pub record FieldError : Type 0 where
  pub field : Text
  pub tag : Text

-- What `validate.Struct` returns: nil, errors of fields, or another error.
pub data Validation : Type 0 where
  valid : Validation
  invalid : List FieldError → Validation
  unusable : Error → Validation

abbrev pub field_message : FieldError → Text
field_message f =
    codes "field '" ++ (f.field ++ (codes "' failed on '" ++ (f.tag ++ codes "' validation")))

abbrev pub messages : List FieldError → List Text
messages [] = []
messages (f ∷ fs) = field_message f ∷ messages fs

-- `strings.Join(texts, "; ")`
unfoldable pub join : List Text → Text
join [] = []
join (t ∷ []) = t
join (t ∷ u ∷ ts) = t ++ (codes "; " ++ join (u ∷ ts))

unfoldable pub validate : Validation → MaybeError
unfolding join err_bad_request
validate valid = nil
validate (invalid fs) = because (to_error (err_bad_request (join (messages fs))))
validate (unusable e) = because (to_error (err_bad_request (codes "invalid request")))
