-- ===== src/Validator/Reported.antt =====
-- What a client sees of a request that validator/validator.go refuses.
use core_shared.Base.{
  Text, codes, some, none, List, [], ◌∷◌, ◌++◌, append_assoc, append-nil, ◌≡◌, refl, sym, ap, ◌∙◌,
  arith,
}
use core_shared.Apperror.{err_bad_request, as_app, find_app, to_error, because}
use core_shared.Json.{render}
use core_shared.Http.{Conn, server, returned}
use core_shared.Http.HeaderMap.{header_set}
use core_shared.Response.{error}
use core_shared.Response.Envelope.{error_object, error-unsent}
use core_shared.Validator.{FieldError, invalid, field_message, messages, join, validate}

-- The text `part` stands in `whole`.
abbrev pub Contains : Text → Text → Type 0
Contains part whole = (before : Text) × (after : Text) × (whole ≡ before ++ (part ++ after))

Contains-next :
    (b : FieldError) (part rest : Text)
    → Contains part rest
    → Contains part (field_message b ++ (codes "; " ++ rest))
Contains-next b part rest (l, r, e) = (
  field_message b ++ (codes "; " ++ l),
  r,
  ap (λ t. field_message b ++ (codes "; " ++ t)) e
      ∙ sym (append_assoc (field_message b) (codes "; " ++ l) (part ++ r)),
)

join-Contains :
    (before after : List FieldError)
    → (f : FieldError) → Contains (field_message f) (join (messages (before ++ f ∷ after)))
unfolding join
join-Contains [] [] f = ([], [], sym (append-nil (field_message f)))
join-Contains [] (g ∷ after) f = ([], codes "; " ++ join (messages (g ∷ after)), refl)
join-Contains (b ∷ []) after f = Contains-next b (field_message f) _ (join-Contains [] after f)
join-Contains (b ∷ b' ∷ before) after f =
    Contains-next b (field_message f) _ (join-Contains (b' ∷ before) after f)

-- If fields fail, the response to the error that `Validate` returns, on a connection whose final
-- status is not out, has status 400 and the error object of BAD_REQUEST, whose message contains
-- the message of each field that failed.
pub validate-invalid :
    (before after : List FieldError)
    → (f : FieldError) (c : Conn) → c.status ≡ none
    → (message : Text) × Contains (field_message f) message
      × (error Conn server (validate (invalid (before ++ f ∷ after))) c ≡ (
        record c {
          headers = header_set (codes "Content-Type") (codes "application/json") c.headers;
          status = some 400;
          body = c.body ++ (render (error_object (err_bad_request message)) ++ b'\n' ∷ []);
        },
        returned,
      ))
unfolding validate as_app find_app err_bad_request
validate-invalid before after f c unsent =
    let text = join (messages (before ++ f ∷ after)) in
    (
      text,
      join-Contains before after f,
      error-unsent (because (to_error (err_bad_request text))) c unsent (omega arith) (omega arith)
          (omega arith) (omega arith),
    )
