-- ===== src/Base/Lists.antt =====
-- Lists measured by native numbers, under the library's names, and predicates on lists.
use Prim.Native.Nat.{ℕ, zero, suc, ◌+◌}
use mathlib.Core.Path.{◌≡◌, refl, ap₂}
use mathlib.Core.Logic.{◌≢◌}
use mathlib.Core.Bool.{Bool, true, false}
use mathlib.Core.List.{List, [], ◌∷◌, ◌++◌}
use native.Mathlib.Omega.{arith}
use native.Mathlib.Nat.{zero-add}

module _ {ℓ} {A : Type ℓ} where
  abbrev pub length : List A → ℕ
  length [] = 0
  length (x ∷ xs) = suc (length xs)

  abbrev pub take : ℕ → List A → List A
  take zero xs = []
  take (suc n) [] = []
  take (suc n) (x ∷ xs) = x ∷ take n xs

  abbrev pub drop : ℕ → List A → List A
  drop zero xs = xs
  drop (suc n) [] = []
  drop (suc n) (x ∷ xs) = drop n xs

  abbrev pub repeat : ℕ → A → List A
  repeat zero a = []
  repeat (suc n) a = a ∷ repeat n a

  -- `len(xs) == 0`
  abbrev pub is_empty : List A → Bool
  is_empty [] = true
  is_empty (x ∷ xs) = false

  pub length-append : (xs ys : List A) → length (xs ++ ys) ≡ length xs + length ys
  length-append [] ys = omega arith
  length-append (x ∷ xs) ys = omega (arith, length-append xs ys)

module _ {ℓ κ} {A : Type ℓ} (P : A → Type κ) where
  abbrev pub All : List A → Type κ
  All [] = Unit
  All (x ∷ xs) = P x × All xs

  pub All-append : (xs ys : List A) → All xs → All ys → All (xs ++ ys)
  All-append [] ys h k = k
  All-append (x ∷ xs) ys (p, h) k = (p, All-append xs ys h k)

pub head_eq {ℓ} : {A : Type ℓ} {x y : A} {xs ys : List A} → x ∷ xs ≡ y ∷ ys → x ≡ y
head_eq e = cc

-- A list is cut in one way at the first place of an element that the left part lacks.
module _ {ℓ} {A : Type ℓ} (c : A) where
  pub cut_unique :
      (a b : List A) {x y : List A}
      → All (λ d. d ≢ c) a
      → All (λ d. d ≢ c) b
      → a ++ c ∷ x ≡ b ++ c ∷ y
      → (a ≡ b) × (x ≡ y)
  cut_unique [] [] h k e = (refl, cc)
  cut_unique [] (d ∷ b) h (p, k) e = absurd (p (cc))
  cut_unique (d ∷ a) [] (p, h) k e = absurd (p (cc))
  cut_unique (d ∷ a) (d' ∷ b) (p, h) (q, k) e =
      let (same, rest) = cut_unique a b h k (cc) in (ap₂ ◌∷◌ (head_eq e) same, rest)

suc_add : (m n : ℕ) → suc m + n ≡ suc (m + n)
suc_add m n = omega arith

module _ {ℓ} {A : Type ℓ} where
  take-nil : (n : ℕ) → ◌≡◌ {A = List A} [] (take n [])
  take-nil zero = refl
  take-nil (suc n) = refl

  pub take-add : (m n : ℕ) (xs : List A) → take (m + n) xs ≡ take m xs ++ take n (drop m xs)
  take-add zero n xs = rw zero-add
  take-add (suc m) n [] = rw (suc_add m n) (take-nil n)
  take-add (suc m) n (x ∷ xs) = rw (suc_add m n, take-add m n xs)
