-- ===== src/Response/Unambiguous.antt =====
-- What a client can tell from the envelope of an error of response/response.go.
use core_shared.Base.{
  ℕ, Text, codes, head_eq, drop, length, ◌≤◌, ◌<◌, All, [], ◌∷◌, ◌++◌, append_assoc, ◌≡◌, ◌∙◌, ap,
  sym, refl, arith,
}
use core_shared.Json.{str, done, field, render, render_next, quote}
use core_shared.Json.Strings.{quote_cancel}
use core_shared.Http.{Conn, new_conn, server}
use core_shared.Response.{error, reported}
use mathlib.Core.Path.{ap₂}
use core_shared.Apperror.{AppError, MaybeError}
use core_shared.Response.Envelope.{error_object, class_then, error-unsent}

-- The text behind the message in the list of errors.
abbrev ending : AppError → Text
ending a =
    codes "}],\"error\":{\"code\":"
    ++ (quote a.code ++ (codes ",\"message\":" ++ (quote a.message ++ codes "}}")))

abbrev message_text : AppError → Text
message_text a = codes ",\"message\":" ++ (quote a.message ++ ending a)

abbrev class_part : Text → Text → Text
class_part [] rest = rest
class_part (c ∷ t) rest = codes ",\"class\":" ++ (quote (c ∷ t) ++ rest)

class_part_then : (class x y : Text) → class_part class x ++ y ≡ class_part class (x ++ y)
class_part_then [] x y = refl
class_part_then (c ∷ t) x y = simp (append_assoc)

class_part-append :
    (class message rest : Text)
    → render_next (class_then class (field (codes "message") (str message) done)) ++ rest
      ≡ class_part class (codes ",\"message\":" ++ (quote message ++ rest))
unfolding render
class_part-append [] message rest = simp (append_assoc)
class_part-append (c ∷ t) message rest = simp (append_assoc)

render-error_object :
    (a : AppError)
    → render (error_object a)
      ≡ codes "{\"status\":false,\"errors\":[{\"code\":"
        ++ (quote a.code ++ class_part a.class (message_text a))
unfolding render
render-error_object a = simp (append_assoc, class_part-append, class_part_then)

prefix_cancel : (p : Text) {x y : Text} → p ++ x ≡ p ++ y → x ≡ y
prefix_cancel [] e = e
prefix_cancel (c ∷ p) e = prefix_cancel p (cc)

-- Behind the code the class shows by its name.
class_part-cancel :
    (c d x y : Text)
    → class_part c (codes ",\"message\":" ++ x) ≡ class_part d (codes ",\"message\":" ++ y)
    → (c ≡ d) × (x ≡ y)
class_part-cancel [] [] x y e = (refl, prefix_cancel (codes ",\"message\":") e)
class_part-cancel [] (k ∷ d) x y e =
    let other : ◌≡◌ {A = ℕ} b'm' b'c' = head_eq (ap (drop 2) e) in absurd (ground arith)
class_part-cancel (k ∷ c) [] x y e =
    let other : ◌≡◌ {A = ℕ} b'c' b'm' = head_eq (ap (drop 2) e) in absurd (ground arith)
class_part-cancel (j ∷ c) (k ∷ d) x y e =
    let (same, left) =
      quote_cancel (j ∷ c) (k ∷ d) (codes ",\"message\":" ++ x) (codes ",\"message\":" ++ y)
        (prefix_cancel (codes ",\"class\":") e) in
    (same, prefix_cancel (codes ",\"message\":") left)

-- The texts of two envelopes are the same only if code, class and message are.
error_object-injective :
    (a b : AppError)
    → render (error_object a) ≡ render (error_object b)
    → (a.code ≡ b.code) × (a.class ≡ b.class) × (a.message ≡ b.message)
error_object-injective a b e =
    let (code, behind) =
      quote_cancel a.code b.code (class_part a.class (message_text a))
        (class_part b.class (message_text b))
        (prefix_cancel (codes "{\"status\":false,\"errors\":[{\"code\":")
          (sym (render-error_object a) ∙ e ∙ render-error_object b)) in
    let (class, left) = class_part-cancel a.class b.class _ _ behind in
    let (message, rest) = quote_cancel a.message b.message (ending a) (ending b) left in
    (code, class, message)

line_cancel : (s t : Text) → s ++ b'\n' ∷ [] ≡ t ++ b'\n' ∷ [] → s ≡ t
line_cancel [] [] e = refl
line_cancel [] (d ∷ []) e = absurd (ground (arith, ap length e))
line_cancel [] (d ∷ c ∷ t) e = absurd (ground (arith, ap length e))
line_cancel (c ∷ []) [] e = absurd (ground (arith, ap length e))
line_cancel (c ∷ d ∷ s) [] e = absurd (ground (arith, ap length e))
line_cancel (c ∷ s) (d ∷ t) e = ap₂ ◌∷◌ (head_eq e) (line_cancel s t (cc))

abbrev pub IsAscii : Text → Type 0
IsAscii = All (λ c. c < 128)

-- Code, class and message are ASCII.
abbrev pub Plain : AppError → Type 0
Plain a = IsAscii a.code × IsAscii a.class × IsAscii a.message

-- Two errors for which `Error` answers with a status from 400 to 999, and whose code, class and
-- message, in the application errors that `As` finds, are ASCII, are answered by the same body
-- only if they have the same code, the same class and the same message: nothing that stands in one
-- of them, quotes, braces and control bytes included, passes for another.
pub error-unambiguous :
    (d e : MaybeError)
    → 400 ≤ (reported d).http_status
    → (reported d).http_status ≤ 999
    → 400 ≤ (reported e).http_status
    → (reported e).http_status ≤ 999
    → Plain (reported d)
    → Plain (reported e)
    → (error Conn server d new_conn).0.body ≡ (error Conn server e new_conn).0.body
    → ((reported d).code ≡ (reported e).code)
      × ((reported d).class ≡ (reported e).class)
      × ((reported d).message ≡ (reported e).message)
error-unambiguous d e dlo dhi elo ehi _ _ same =
    let sent_d = error-unsent d new_conn refl (omega arith) dhi (omega arith) (omega arith) in
    let sent_e = error-unsent e new_conn refl (omega arith) ehi (omega arith) (omega arith) in
    error_object-injective (reported d) (reported e) (
      line_cancel (render (error_object (reported d))) (render (error_object (reported e)))
        (sym (ap (λ r. r.0.body) sent_d) ∙ same ∙ ap (λ r. r.0.body) sent_e))
