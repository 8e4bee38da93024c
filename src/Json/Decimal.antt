-- ===== src/Json/Decimal.antt =====
-- The fuel of `decimal` is enough: the digits that it prints are those of the number.
use core_shared.Base.{
  ℕ, zero, suc, ◌+◌, ◌-◌, ◌*◌, ◌/◌, ◌^◌, ◌<◌, Text, Bool-cases, inl, inr, [], ◌∷◌, ltb, ◌≡◌, ◌∙◌,
  refl, arith,
}
use core_shared.Json.{digits_up, reverse_onto, decimal}

-- The number that digits stand for, behind one that is read already.
abbrev pub number_from : ℕ → Text → ℕ
number_from n [] = n
number_from n (c ∷ s) = number_from (n * 10 + (c - b'0')) s

abbrev lowest_first : Text → ℕ
lowest_first [] = 0
lowest_first (c ∷ s) = lowest_first s * 10 + (c - b'0')

lowest_first-digits_up : (f n : ℕ) → n < 10 ^ f → lowest_first (digits_up f n) ≡ n
unfolding digits_up
lowest_first-digits_up zero n h = omega arith
lowest_first-digits_up (suc f) n h = elim (Bool-cases (ltb n 10)) [
  | inl small ↦ rw small (ground (arith, small))
  | inr large ↦ rw large (omega (arith, lowest_first-digits_up f (n / 10) (omega arith)))
]

number_from-reverse_onto :
    (digits out : Text)
    → number_from 0 (reverse_onto digits out) ≡ number_from (lowest_first digits) out
unfolding reverse_onto
number_from-reverse_onto [] out = refl
number_from-reverse_onto (c ∷ digits) out = number_from-reverse_onto digits (c ∷ out)

-- The digits of a number below 10 ^ 20 are read as that number.
pub number_from-decimal : (n : ℕ) → n < 10 ^ 20 → number_from 0 (decimal n) ≡ n
unfolding decimal
number_from-decimal n h =
    number_from-reverse_onto (digits_up 20 n) [] ∙ lowest_first-digits_up 20 n h
