-- ===== src/Mongo/Client/Goroutines/Progress.antt =====
-- How calls of `Connect` of mongo/client.go can go on from any moment to their return.
use core_shared.Base.{
  ℕ, true, false, Bool-cases, Option, some, Option-cases, inl, inr, ◌≡◌, ◌∙◌, ap, refl,
}
use mathlib.Core.Path.{subst}
use core_shared.Apperror.{Error}
use core_shared.Mongo.Client.{World}
use core_shared.Mongo.Client.Goroutines.{
  Place, outside, dialling, pinging, disconnecting, storing, naming, leaving, reading, returned,
  closing, closed, Goroutines, put_place, Step, enter, pass, accept, answer, disconnect,
  store_client, store_db, leave, read, Reach, here, next, started,
}
use core_shared.Mongo.Client.Goroutines.Invariant.{
  AtBody, IsConsistent, inner_of, held_inner, put_place_self, put_place_cases,
}
use core_shared.Mongo.Client.Goroutines.Single.{Reach-IsConsistent}

-- The goroutine has called `Close`.
abbrev pub InClose : Place → Type 0
InClose (closing h) = Unit {0}
InClose closed = Unit {0}
InClose place = ⊥

Reach-trans : {s t u : Goroutines} → Reach s t → Reach t u → Reach s u
Reach-trans r here = r
Reach-trans r (next q st) = next (Reach-trans r q) st

put_place_other :
    (j : ℕ) (p : Place) (places : ℕ → Place) (k : ℕ) → ¬ (j ≡ k) → put_place j p places k ≡ places k
put_place_other j p places k apart = elim (put_place_cases j k p places) [
  | inl (same, _) ↦ absurd (apart same)
  | inr e ↦ e
]

-- The goroutine `j` can go on to the end of the body while the others stand still.
record Leaves (j : ℕ) (s : Goroutines) : Type 0 where
  then : Goroutines
  reached : Reach s then
  behind : then.places j ≡ reading
  done : then.world.c.once ≡ true
  others : (k : ℕ) → ¬ (j ≡ k) → then.places k ≡ s.places k

Step-Leaves :
    (j : ℕ) (p : Place) {s u : Goroutines}
    → Step s u
    → u.places ≡ put_place j p s.places
    → Leaves j u
    → Leaves j s
Step-Leaves j p {s} {u} st moved l = record {
  then = l.then;
  reached = Reach-trans (next here st) l.reached;
  behind = l.behind;
  done = l.done;
  others = λ k apart. l.others k apart ∙ ap (λ f. f k) moved ∙ put_place_other j p s.places k apart;
}

leaving-Leaves : (j : ℕ) (s : Goroutines) → s.places j ≡ leaving → Leaves j s
leaving-Leaves j s e = record {
  then = _;
  reached = next here (leave j e);
  behind = put_place_self j reading s.places;
  done = refl;
  others = put_place_other j reading s.places;
}

naming-Leaves : (j h : ℕ) (s : Goroutines) → s.places j ≡ naming h → Leaves j s
naming-Leaves j h s e =
    Step-Leaves j leaving (store_db j h e) refl
      (leaving-Leaves j _ (put_place_self j leaving s.places))

storing-Leaves : (j h : ℕ) (s : Goroutines) → s.places j ≡ storing h → Leaves j s
storing-Leaves j h s e =
    Step-Leaves j (naming h) (store_client j h e) refl
      (naming-Leaves j h _ (put_place_self j (naming h) s.places))

pinging-Leaves : (j h : ℕ) (s : Goroutines) → s.places j ≡ pinging h → Leaves j s
pinging-Leaves j h s e =
    Step-Leaves j (storing h) (answer j h e) refl
      (storing-Leaves j h _ (put_place_self j (storing h) s.places))

dialling-Leaves : (j : ℕ) (s : Goroutines) → s.places j ≡ dialling → Leaves j s
dialling-Leaves j s e =
    Step-Leaves j (pinging 0) (accept j 0 e) refl
      (pinging-Leaves j 0 _ (put_place_self j (pinging 0) s.places))

disconnecting-Leaves : (j h : ℕ) (s : Goroutines) → s.places j ≡ disconnecting h → Leaves j s
disconnecting-Leaves j h s e =
    Step-Leaves j leaving (disconnect j h e) refl
      (leaving-Leaves j _ (put_place_self j leaving s.places))

body-Leaves :
    (start : World) (j : ℕ) (s : Goroutines) (p : Place)
    → s.places j ≡ p
    → AtBody start s.world p
    → Leaves j s
body-Leaves start j s dialling e b = dialling-Leaves j s e
body-Leaves start j s (pinging h) e b = pinging-Leaves j h s e
body-Leaves start j s (disconnecting h) e b = disconnecting-Leaves j h s e
body-Leaves start j s (storing h) e b = storing-Leaves j h s e
body-Leaves start j s (naming h) e b = naming-Leaves j h s e
body-Leaves start j s leaving e b = leaving-Leaves j s e
body-Leaves start j s outside e b = elim b [ ]
body-Leaves start j s reading e b = elim b [ ]
body-Leaves start j s (returned _) e b = elim b [ ]
body-Leaves start j s (closing _) e b = elim b [ ]
body-Leaves start j s closed e b = elim b [ ]

-- The goroutine's call of `Connect` can go on to its return.
abbrev pub CanReturn : ℕ → Goroutines → Type 0
CanReturn i s = (t : Goroutines) × (e : Option Error) × Reach s t × (t.places i ≡ returned e)

Reach-CanReturn : (i : ℕ) {s t : Goroutines} → Reach s t → CanReturn i t → CanReturn i s
Reach-CanReturn i r (t, e, q, back) = (t, e, Reach-trans r q, back)

reading-CanReturn : (i : ℕ) (s : Goroutines) → s.places i ≡ reading → CanReturn i s
reading-CanReturn i s at_end =
    (_, s.world.c.conn_err, next here (read i at_end), put_place_self i (returned _) s.places)

Leaves-CanReturn : (i : ℕ) (s : Goroutines) → Leaves i s → CanReturn i s
Leaves-CanReturn i s l = Reach-CanReturn i l.reached (reading-CanReturn i l.then l.behind)

passing-CanReturn :
    (i : ℕ) (s : Goroutines) → s.places i ≡ outside → s.world.c.once ≡ true → CanReturn i s
passing-CanReturn i s e done =
    Reach-CanReturn i (next here (pass i e done))
      (reading-CanReturn i _ (put_place_self i reading s.places))

module _ (start : World) (s : Goroutines) (c : IsConsistent start s) where
  -- Behind a goroutine that is in the body.
  waiting-CanReturn : (i j : ℕ) → s.places i ≡ outside → s.holder ≡ some j → CanReturn i s
  waiting-CanReturn i j e held =
      let inside = (held_inner start s c j held).1 in
      let l = body-Leaves start j s (s.places j) refl inside in
      let apart : ¬ (j ≡ i) = λ same. subst (AtBody start s.world) (ap s.places same ∙ e) inside in
      Reach-CanReturn i l.reached (passing-CanReturn i l.then (l.others i apart ∙ e) l.done)

  outside-CanReturn : (i : ℕ) → s.places i ≡ outside → CanReturn i s
  outside-CanReturn i e = elim (Bool-cases s.world.c.once) [
    | inl done ↦ passing-CanReturn i s e done
    | inr first ↦ elim (Option-cases s.holder) [
      | inl free ↦
          Reach-CanReturn i (next here (enter i e first free))
            (Leaves-CanReturn i _ (dialling-Leaves i _ (put_place_self i dialling s.places)))
      | inr (j, held) ↦ waiting-CanReturn i j e held
    ]
  ]

  inside-CanReturn : (i : ℕ) (p : Place) → s.places i ≡ p → AtBody start s.world p → CanReturn i s
  inside-CanReturn i p e b = Leaves-CanReturn i s (body-Leaves start i s p e b)

  consistent-CanReturn : (i : ℕ) (p : Place) → s.places i ≡ p → ¬ InClose p → CanReturn i s
  consistent-CanReturn i outside e u = outside-CanReturn i e
  consistent-CanReturn i reading e u = reading-CanReturn i s e
  consistent-CanReturn i (returned r) e u = (s, r, here, e)
  consistent-CanReturn i (closing _) e u = absurd (u tt)
  consistent-CanReturn i closed e u = absurd (u tt)
  consistent-CanReturn i dialling e u =
      inside-CanReturn i dialling e (inner_of start s c i dialling e (λ x. x)).2
  consistent-CanReturn i (pinging h) e u =
      inside-CanReturn i (pinging h) e (inner_of start s c i (pinging h) e (λ x. x)).2
  consistent-CanReturn i (disconnecting h) e u =
      inside-CanReturn i (disconnecting h) e (inner_of start s c i (disconnecting h) e (λ x. x)).2
  consistent-CanReturn i (storing h) e u =
      inside-CanReturn i (storing h) e (inner_of start s c i (storing h) e (λ x. x)).2
  consistent-CanReturn i (naming h) e u =
      inside-CanReturn i (naming h) e (inner_of start s c i (naming h) e (λ x. x)).2
  consistent-CanReturn i leaving e u =
      inside-CanReturn i leaving e (inner_of start s c i leaving e (λ x. x)).2

-- No moment of an interleaving of calls of `Connect` and `Close` is a deadlock for `Connect`: from
-- each, for every goroutine that has not called `Close`, whether it stands before its call, in the
-- body of `once.Do`, or behind it, and whoever holds `once`, there are steps to its call's return.
pub Reach-connect_returns :
    (start : World) {s : Goroutines} (i : ℕ)
    → start.c.once ≡ false
    → Reach (started start) s
    → ¬ InClose (s.places i)
    → CanReturn i s
Reach-connect_returns start {s} i once r u =
    consistent-CanReturn start s (Reach-IsConsistent start once r) i (s.places i) refl u
