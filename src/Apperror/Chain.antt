-- ===== src/Apperror/Chain.antt =====
-- What `As` of apperror/errors.go finds in a chain of wrapped and joined errors.
use core_shared.Base.{Text, ◌≡◌, refl, ◌↔◌, none, some, Option-cases, inl, inr, arith}
use mathlib.Core.Path.{subst}
use mathlib.Core.Option.{some-injective}
use core_shared.Apperror.{
  Error, plain, wrapped, joined, app, because, Errors, end, also, AppError, to_error, find_app,
  find_apps, as_app,
}

-- No application error anywhere in the tree.
mutual
  pub data Lacks : Error → Type 0 where
    plain_lacks : {m : Text} → Lacks (plain m)
    wrapped_lacks : {m : Text} {e : Error} → Lacks e → Lacks (wrapped m e)
    joined_lacks : {es : Errors} → LackAll es → Lacks (joined es)

  pub data LackAll : Errors → Type 0 where
    end_lacks : LackAll end
    also_lacks : {e : Error} {es : Errors} → Lacks e → LackAll es → LackAll (also e es)

-- The outermost, leftmost application error of the tree is `a`.
mutual
  pub data First (a : AppError) : Error → Type 0 where
    itself : First a (to_error a)
    inside : {m : Text} {e : Error} → First a e → First a (wrapped m e)
    among : {es : Errors} → FirstOf a es → First a (joined es)

  pub data FirstOf (a : AppError) : Errors → Type 0 where
    head : {e : Error} {es : Errors} → First a e → FirstOf a (also e es)
    later : {e : Error} {es : Errors} → Lacks e → FirstOf a es → FirstOf a (also e es)

mutual
  unfolding find_app find_apps

  Lacks-find_app : (e : Error) → find_app e ≡ none → Lacks e
  Lacks-find_app (plain m) h = plain_lacks
  Lacks-find_app (wrapped m e) h = wrapped_lacks (Lacks-find_app e h)
  Lacks-find_app (joined es) h = joined_lacks (LackAll-find_apps es h)
  Lacks-find_app (app _ _ _ _ _ _ _ _) h = cc

  LackAll-find_apps : (es : Errors) → find_apps es ≡ none → LackAll es
  LackAll-find_apps end h = end_lacks
  LackAll-find_apps (also e es) h =
      also_lacks (Lacks-find_app e (ground arith)) (LackAll-find_apps es (ground arith))

mutual
  unfolding find_app find_apps

  find_app-Lacks : {e : Error} → Lacks e → find_app e ≡ none
  find_app-Lacks plain_lacks = refl
  find_app-Lacks (wrapped_lacks l) = find_app-Lacks l
  find_app-Lacks (joined_lacks l) = find_apps-LackAll l

  find_apps-LackAll : {es : Errors} → LackAll es → find_apps es ≡ none
  find_apps-LackAll end_lacks = refl
  find_apps-LackAll (also_lacks l ls) = ground (arith, find_app-Lacks l, find_apps-LackAll ls)

First-app : {a b : AppError} → some b ≡ some a → First a (to_error b)
First-app {a} {b} h = subst (λ c. First c (to_error b)) (some-injective b a h) itself

mutual
  unfolding find_app find_apps

  First-find_app : (e : Error) (a : AppError) → find_app e ≡ some a → First a e
  First-find_app (plain m) a h = cc
  First-find_app (wrapped m e) a h = inside (First-find_app e a h)
  First-find_app (joined es) a h = among (FirstOf-find_apps es a h)
  First-find_app (app _ _ _ _ _ _ _ _) a h = First-app h

  FirstOf-find_apps : (es : Errors) (a : AppError) → find_apps es ≡ some a → FirstOf a es
  FirstOf-find_apps end a h = cc
  FirstOf-find_apps (also e es) a h = elim (Option-cases (find_app e)) [
    | inl missed ↦
        later (Lacks-find_app e missed) (FirstOf-find_apps es a (rw (missed, find_apps) at h))
    | inr (b, found) ↦ head (First-find_app e a (ground arith))
  ]

mutual
  unfolding find_app find_apps

  find_app-First : {a : AppError} {e : Error} → First a e → find_app e ≡ some a
  find_app-First itself = refl
  find_app-First (inside f) = find_app-First f
  find_app-First (among f) = find_apps-FirstOf f

  find_apps-FirstOf : {a : AppError} {es : Errors} → FirstOf a es → find_apps es ≡ some a
  find_apps-FirstOf (head f) = ground (arith, find_app-First f)
  find_apps-FirstOf (later l f) = ground (arith, find_app-Lacks l, find_apps-FirstOf f)

-- `As` returns `a` exactly when `a` is the outermost, leftmost application error in the tree of
-- wrapped and joined errors.
pub as_app-eq-some_iff : (e : Error) (a : AppError) → (as_app (because e) ≡ some a) ↔ First a e
unfolding as_app
as_app-eq-some_iff e a = (First-find_app e a, find_app-First)

-- `As` fails exactly when no application error stands anywhere in the tree.
pub as_app-eq-none_iff : (e : Error) → (as_app (because e) ≡ none) ↔ Lacks e
unfolding as_app
as_app-eq-none_iff e = (Lacks-find_app e, find_app-Lacks)
