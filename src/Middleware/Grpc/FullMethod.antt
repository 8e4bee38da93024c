-- ===== src/Middleware/Grpc/FullMethod.antt =====
-- How middleware/grpc.go takes the full name of a method apart.
use core_shared.Base.{
  ℕ, Text, Option, none, some, inl, inr, [], ◌∷◌, ◌++◌, ◌==◌, All, Bool-cases, ◌⊎◌, ◌≡◌, ◌≢◌, ap,
  refl, arith,
}
use core_shared.Middleware.Grpc.{cut_slash, trim_slash, split_full_method}

abbrev pub NoSlash : Text → Type 0
NoSlash = All (λ c. c ≢ b'/')

-- How a text that has lost its leading slash is cut.
abbrev CutAt : Text → Option (Text × Text) → Type 0
CutAt t none = NoSlash t
CutAt t (some (left, right)) = NoSlash left × (t ≡ left ++ b'/' ∷ right)

later_CutAt :
    (c : ℕ) (t : Text) (found : Option (Text × Text))
    → c ≢ b'/'
    → CutAt t found
    → CutAt (c ∷ t) (elim found [ none ↦ none | some (left, right) ↦ some (c ∷ left, right) ])
later_CutAt c t none p h = (p, h)
later_CutAt c t (some (left, right)) p (h, e) = ((p, h), ap (◌∷◌ c) e)

cut_slash-CutAt : (t : Text) → CutAt t (cut_slash t)
unfolding cut_slash
cut_slash-CutAt [] = tt
cut_slash-CutAt (c ∷ t) = elim (Bool-cases (c == b'/')) [
  | inl here ↦ rw (here, cut_slash) (tt, ground arith)
  | inr later ↦
      rw (later, cut_slash) (later_CutAt c t (cut_slash t) (ground arith) (cut_slash-CutAt t))
]

-- The two parts of a text, given how it is cut.
abbrev parts : Text → Option (Text × Text) → Text × Text
parts t none = ([], t)
parts t (some (left, right)) = (left, right)

split_by :
    (t : Text) (found : Option (Text × Text))
    → CutAt t found
    → NoSlash (parts t found).0
      × ((t ≡ (parts t found).0 ++ b'/' ∷ (parts t found).1)
          ⊎ (((parts t found).0 ≡ []) × ((parts t found).1 ≡ t) × NoSlash t))
split_by t none h = (tt, inr (refl, refl, h))
split_by t (some (left, right)) (h, e) = (h, inl e)

-- Whatever the method's full name, with its leading slash trimmed: the service has no slash in it,
-- and the name is the service, a slash and the method, or it has no slash at all and is the
-- method, and the service is empty.
pub split_full_method_lem :
    (full : Text)
    → NoSlash (split_full_method full).0
      × ((trim_slash full ≡ (split_full_method full).0 ++ b'/' ∷ (split_full_method full).1)
          ⊎ (((split_full_method full).0 ≡ [])
              × ((split_full_method full).1 ≡ trim_slash full)
              × NoSlash (trim_slash full)))
unfolding split_full_method
split_full_method_lem full =
    split_by (trim_slash full) (cut_slash (trim_slash full)) (cut_slash-CutAt (trim_slash full))
