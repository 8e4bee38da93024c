-- ===== src/Apperror/Codes.antt =====
-- Error codes `SVC-FEAT-CLASS-NAME` of apperror/errors.go: length and unambiguity.
use core_shared.Base.{
  ℕ, ◌≤◌, ◌+◌, Text, ◌≡◌, ◌≢◌, ◌∷◌, ◌++◌, length, length-append, All, cut_unique, arith,
}
use core_shared.Apperror.{Class, coded, new_coded}

-- The text has no dash in it.
abbrev pub NoDash : Text → Type 0
NoDash = All (λ c. c ≢ b'-')

length-coded :
    (svc feat class name : Text)
    → length (coded svc feat class name) ≡ length svc + length feat + length class + length name + 3
unfolding coded
length-coded svc feat class name = omega (
  arith,
  length-append svc (b'-' ∷ (feat ++ b'-' ∷ (class ++ b'-' ∷ name))),
  length-append feat (b'-' ∷ (class ++ b'-' ∷ name)),
  length-append class (b'-' ∷ name),
)

-- A code that `NewCoded` builds from a service of at most 3 bytes, a feature of at most 10, a
-- class of one and a name of at most 30 has at most 47 bytes.
pub length-new_coded :
    (svc feat : Text) (class : Class) (name message : Text) (status : ℕ)
    → length svc ≤ 3
    → length feat ≤ 10
    → length class ≤ 1
    → length name ≤ 30
    → length (new_coded svc feat class name message status).code ≤ 47
unfolding new_coded
length-new_coded svc feat class name message status hs hf hc hn =
    omega (arith, length-coded svc feat class name)

-- Two codes that `NewCoded` builds from services, features and classes with no dash are the
-- same text only if service, feature, class and name are the same.
pub new_coded_unambiguous :
    (svc feat : Text) (class : Class) (name message : Text) (status : ℕ) (svc' feat' : Text)
    (class' : Class) (name' message' : Text) (status' : ℕ)
    → NoDash svc
    → NoDash feat
    → NoDash class
    → NoDash svc'
    → NoDash feat'
    → NoDash class'
    → (new_coded svc feat class name message status).code
      ≡ (new_coded svc' feat' class' name' message' status').code
    → (svc ≡ svc') × (feat ≡ feat') × (class ≡ class') × (name ≡ name')
unfolding new_coded coded
new_coded_unambiguous svc feat class name _ _ svc' feat' class' name' _ _ hs hf hc hs' hf' hc' e =
    let (same_svc, e₁) = cut_unique b'-' svc svc' hs hs' e in
    let (same_feat, e₂) = cut_unique b'-' feat feat' hf hf' e₁ in
    let (same_class, same_name) = cut_unique b'-' class class' hc hc' e₂ in
    (same_svc, same_feat, same_class, same_name)
