-- ===== src/Mongo/Repository/Sorted.antt =====
-- Lists in the order of a sort, as the finds of mongo/repository.go meet them.
use core_shared.Base.{Bool, true, false, All, List, [], ◌∷◌, ◌≡◌, sym, refl}
use mathlib.Core.Path.{ap₂, subst}
use mathlib.Core.Logic.Or
use mathlib.Core.List.{Mem, Perm, not-mem-nil, mem-cons_self, eq-or-mem_of_mem-cons}
use mathlib.Core.List.Perm

-- Each document is at most those behind it: where some are equal in the sort, in either order.
abbrev pub Sorted : {A : Type 0} → (A → A → Bool) → List A → Type 0
Sorted at_most [] = Unit {0}
Sorted at_most (x ∷ xs) = All (λ y. at_most x y ≡ true) xs × Sorted at_most xs

-- No document is at most one before it: the keys of the sort are different.
abbrev pub Ascending : {A : Type 0} → (A → A → Bool) → List A → Type 0
Ascending at_most [] = Unit {0}
Ascending at_most (x ∷ xs) = All (λ y. at_most y x ≡ false) xs × Ascending at_most xs

All-mem :
    {A : Type 0} {P : A → Type 0} (prop : (x : A) → IsProp (P x)) (xs : List A) (x : A)
    → All P xs
    → Mem x xs
    → P x
All-mem prop [] x h m = absurd (not-mem-nil m)
All-mem {P} prop (y ∷ xs) x (p, h) m =
    Or.elim (prop x) (eq-or-mem_of_mem-cons m) (λ e. subst P (sym e) p) (λ k. All-mem prop xs x h k)

module _ {A : Type 0} (is_set : IsSet A) (at_most : A → A → Bool) where
  same_head :
      (x y : A) (xs ys : List A)
      → All (λ z. at_most z x ≡ false) xs
      → All (λ z. at_most y z ≡ true) ys
      → Mem x (y ∷ ys)
      → Mem y (x ∷ xs)
      → x ≡ y
  same_head x y xs ys above below mx my =
      Or.elim (is_set x y) (eq-or-mem_of_mem-cons mx) (λ e. e)
        (λ behind.
          Or.elim (is_set x y) (eq-or-mem_of_mem-cons my) (λ e. sym e)
            (λ later.
              let lo = All-mem (λ z. hlevel) ys x below behind in
              let hi = All-mem (λ z. hlevel) xs y above later in cc))

  -- With different keys there is one arrangement in the order of the sort.
  pub arrangement_unique :
      (xs ys : List A) → Ascending at_most xs → Sorted at_most ys → Perm ys xs → ys ≡ xs
  arrangement_unique [] [] a s p = refl
  arrangement_unique [] (y ∷ ys) a s p = absurd (not-mem-nil ((Perm.mem_iff p).0 mem-cons_self))
  arrangement_unique (x ∷ xs) [] a s p = absurd (not-mem-nil ((Perm.mem_iff p).1 mem-cons_self))
  arrangement_unique (x ∷ xs) (y ∷ ys) (above, a) (below, s) p =
      let same =
        same_head x y xs ys above below ((Perm.mem_iff p).1 mem-cons_self)
          ((Perm.mem_iff p).0 mem-cons_self) in
      let rest = subst (λ z. Perm (z ∷ ys) (x ∷ xs)) (sym same) p in
      ap₂ ◌∷◌ (sym same) (arrangement_unique xs ys a s (Perm.cons_inv rest))
