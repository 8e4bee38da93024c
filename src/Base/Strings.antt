-- ===== src/Base/Strings.antt =====
-- Go's strings: lists of bytes, with the operations of package `strings` that the code uses.
use Prim.Native.Nat.{ℕ, ◌+◌, ◌-◌}
use Prim.Native.Char.{code}
use Prim.Native.String.{String}
use mathlib.Core.Path.{◌≡◌, refl}
use mathlib.Core.Logic.{◌↔◌, ◌⊎◌, inl, inr}
use mathlib.Core.Bool.{Bool, true, false, ◌&&◌}
use mathlib.Core.List.{List, [], ◌∷◌, ◌++◌, map}
use native.Mathlib.Omega.{arith}
use core_shared.Base.Lists.{is_empty}
use core_shared.Base.Tests.{leb, Bool-cases, ◌==◌, if◌then◌else◌}

abbrev pub Text : Type 0
Text = List ℕ

-- The bytes of an ASCII literal.
abbrev pub codes : String → Text
codes String.[] = []
codes (String.◌∷◌ c s) = code c ∷ codes s

-- `a == b` on strings
unfoldable pub text_eq : Text → Text → Bool
text_eq [] [] = true
text_eq (x ∷ a) (y ∷ b) = x == y && text_eq a b
text_eq _ _ = false

pub text_eq_iff : (a b : Text) → (text_eq a b ≡ true) ↔ (a ≡ b)
unfolding text_eq
text_eq_iff (x ∷ a) (y ∷ b) = ground (arith, text_eq_iff a b)
text_eq_iff _ _ = ground arith

pub text_eq_refl : (a : Text) → text_eq a a ≡ true
text_eq_refl a = (text_eq_iff a a).1 refl

pub text_eq-cases : (a b : Text) → (a ≡ b) ⊎ (text_eq a b ≡ false)
text_eq-cases a b = elim (Bool-cases (text_eq a b)) [
  | inl same ↦ inl ((text_eq_iff a b).0 same)
  | inr other ↦ inr other
]

-- `s`, or the default where `s` is empty.
abbrev pub text_or : Text → Text → Text
text_or s default = if is_empty s then default else s

-- `strings.HasPrefix(s, p)`
unfoldable pub has_prefix : Text → Text → Bool
has_prefix s [] = true
has_prefix [] (y ∷ p) = false
has_prefix (x ∷ s) (y ∷ p) = x == y && has_prefix s p

pub has_prefix-append : (p s : Text) → has_prefix (p ++ s) p ≡ true
unfolding has_prefix
has_prefix-append [] s = refl
has_prefix-append (x ∷ p) s = ground (arith, has_prefix-append p s)

abbrev pub is_upper_ascii : ℕ → Bool
is_upper_ascii c = leb b'A' c && leb c b'Z'

abbrev pub is_lower_ascii : ℕ → Bool
is_lower_ascii c = leb b'a' c && leb c b'z'

abbrev pub is_digit : ℕ → Bool
is_digit c = leb b'0' c && leb c b'9'

abbrev pub lower_ascii : ℕ → ℕ
lower_ascii c = if is_upper_ascii c then c + 32 else c

abbrev pub upper_ascii : ℕ → ℕ
upper_ascii c = if is_lower_ascii c then c - 32 else c

-- `strings.ToLower` and `strings.EqualFold`, of ASCII.
abbrev pub to_lower : Text → Text
to_lower s = map lower_ascii s

abbrev pub equal_fold : Text → Text → Bool
equal_fold a b = text_eq (to_lower a) (to_lower b)
