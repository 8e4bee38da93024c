-- ===== src/Logger/Fanout/Dispatch.antt =====
-- Which handlers logger/fanout.go calls, and which error it returns.
use core_shared.Base.{
  Bool, Bool-cases, Option, none, some, inl, inr, List, [], ◌∷◌, ℤ, if◌then◌else◌, ◌≡◌, ◌∙◌, ap,
  refl, sym, arith,
}
use core_shared.Apperror.{Error}
use core_shared.Logger.Slog.{Record, Handler}
use core_shared.Logger.Fanout.{first_error, handle_from, handle_all}

abbrev filter_by {ℓ} : {A : Type ℓ} → (A → Bool) → List A → List A
filter_by p [] = []
filter_by p (x ∷ xs) = if p x then x ∷ filter_by p xs else filter_by p xs

-- The first of some errors, none if there is no error.
abbrev pub first_of : List (Option Error) → Option Error
first_of [] = none
first_of (none ∷ es) = first_of es
first_of (some e ∷ es) = some e

first_of-cons :
    (e : Option Error) (es : List (Option Error)) → first_of (e ∷ es) ≡ first_error e (first_of es)
first_of-cons none es = refl
first_of-cons (some e) es = refl

first_error_assoc :
    (a b c : Option Error) → first_error (first_error a b) c ≡ first_error a (first_error b c)
first_error_assoc none b c = refl
first_error_assoc (some e) b c = refl

module _ {H S : Type 0} (child : Handler H S) where
  abbrev pub enabled_children : ℤ → List H → List H
  enabled_children level hs = filter_by (λ h. child.is_enabled h level) hs

  abbrev pub behind : Option Error → S × List (Option Error) → S × List (Option Error)
  behind e (s, es) = (s, e ∷ es)

  abbrev pub each_after :
      List H → (S → S × List (Option Error)) → S × Option Error → S × List (Option Error)
  each_after hs rest (s, e) = behind e (rest s)

  -- All handlers of a list, one after the other, with what each returns.
  abbrev pub run_each : List H → Record → S → S × List (Option Error)
  run_each [] r s = (s, [])
  run_each (h ∷ hs) r s = each_after hs (run_each hs r) (child.handle h r s)

  abbrev pub summary : S × List (Option Error) → S × Option Error
  summary (s, es) = (s, first_of es)

  abbrev summary_after : Option Error → S × List (Option Error) → S × Option Error
  summary_after first (s, es) = (s, first_error first (first_of es))

  after_child :
      (hs : List H) (rest : S → S × List (Option Error)) (first : Option Error)
      → (p : S × Option Error)
      → summary_after (first_error first p.1) (rest p.0)
        ≡ summary_after first (each_after hs rest p)
  after_child hs rest first (s, e) = after_rest (rest s)
    where
      after_rest :
          (q : S × List (Option Error))
          → summary_after (first_error first e) q ≡ summary_after first (behind e q)
      after_rest (s', es) =
          ap (λ (x : Option Error). (s', x))
            (first_error_assoc first e (first_of es)
              ∙ ap (first_error first) (sym (first_of-cons e es)))

  handle_from-eq :
      (hs : List H) (r : Record) (s : S) (first : Option Error)
      → handle_from child hs r (s, first)
        ≡ summary_after first (run_each (enabled_children r.level hs) r s)
  unfolding handle_from
  handle_from-eq [] r s first = ap (λ (x : Option Error). (s, x)) (ground arith)
  handle_from-eq (h ∷ hs) r s first = elim (Bool-cases (child.is_enabled h r.level)) [
    | inl asked ↦ rw asked (
        handle_from-eq hs r (child.handle h r s).0 (first_error first (child.handle h r s).1)
        ∙ after_child (enabled_children r.level hs) (run_each (enabled_children r.level hs) r) first
            (child.handle h r s))
    | inr skipped ↦ rw skipped (handle_from-eq hs r s first)
  ]

  -- The fan-out calls exactly the children that are enabled for the record's level, in their
  -- order and each whatever those before it return, and returns the first error of theirs.
  pub handle_all-run_each :
      (hs : List H) (r : Record) (s : S)
      → handle_all child hs r s ≡ summary (run_each (enabled_children r.level hs) r s)
  unfolding handle_all
  handle_all-run_each hs r s = handle_from-eq hs r s none
