-- ===== src/Mongo/Client/Goroutines/Invariant.antt =====
-- What holds at every moment of an interleaving of calls of `Connect` and `Close`.
use core_shared.Base.{
  ◌≢◌, ℕ, Bool, true, false, Bool-cases, Option, none, some, inl, inr, List, ◌==◌, ==_iff, ==_refl,
  ◌≡◌, ◌⊎◌, ◌∙◌, ap, sym, refl,
}
use mathlib.Core.Path.{subst}
use core_shared.Apperror.{Error}
use core_shared.Mongo.Client.{World, Driver, Event, dial, pinged, connected}
use core_shared.Mongo.Client.Goroutines.{
  Place, outside, dialling, pinging, disconnecting, storing, naming, leaving, reading, returned,
  closing, closed, Goroutines, put_place, at_place, noted, with_error, with_client, with_once,
}

-- Outside the body, and what is known there: with `once` done, what `Connect` returns.
abbrev pub Outer : Bool → World → Place → Type 0
Outer settled w outside = Unit {0}
Outer settled w (closing h) = Unit {0}
Outer settled w closed = Unit {0}
Outer settled w reading = settled ≡ true
Outer settled w (returned e) = (settled ≡ true) × (e ≡ w.c.conn_err)
Outer settled w place = ⊥

abbrev pub Holds : Option ℕ → ℕ → Type 0
Holds holder i = holder ≡ some i

module _ (start : World) where
  -- The call alone, up to the end of the body.
  abbrev pub IsCall : World → Type 0
  IsCall w = (d : Driver) × (w ≡ connected d start)

  -- The world while the goroutine in the body stands at a place.
  abbrev pub AtBody : World → Place → Type 0
  AtBody w dialling = w ≡ start
  AtBody w (pinging h) = w ≡ noted (dial h) start
  AtBody w (disconnecting h) =
      (e : Error) × (w ≡ noted (pinged h) (with_error e (noted (dial h) start)))
  AtBody w (storing h) = w ≡ noted (pinged h) (noted (dial h) start)
  AtBody w (naming h) = w ≡ with_client h (noted (pinged h) (noted (dial h) start))
  AtBody w leaving = IsCall (with_once w)
  AtBody w place = ⊥

  abbrev pub Held : Option ℕ → World → (ℕ → Place) → Type 0
  Held none w places = Unit {0}
  Held (some j) w places = (w.c.once ≡ false) × AtBody w (places j)

  pub record IsConsistent (s : Goroutines) : Type 0 where
    pub outer : (i : ℕ) → Holds s.holder i ⊎ Outer s.world.c.once s.world (s.places i)
    pub inner : Held s.holder s.world s.places
    pub untouched : s.holder ≡ none → s.world.c.once ≡ false → s.world ≡ start
    pub settled : s.world.c.once ≡ true → IsCall s.world

pub put_place_self : (i : ℕ) (p : Place) (places : ℕ → Place) → put_place i p places i ≡ p
put_place_self i p places = rw (==_refl i)

pub put_place_cases :
    (i k : ℕ) (p : Place) (places : ℕ → Place)
    → ((i ≡ k) × (put_place i p places k ≡ p)) ⊎ (put_place i p places k ≡ places k)
put_place_cases i k p places = elim (Bool-cases (i == k)) [
  | inl same ↦ inl ((==_iff i k).0 same, rw same)
  | inr other ↦ inr (rw other)
]

Outer-unsettled : (w w' : World) (p : Place) → Outer false w p → Outer false w' p
Outer-unsettled w w' outside o = tt
Outer-unsettled w w' (closing h) o = tt
Outer-unsettled w w' closed o = tt
Outer-unsettled w w' reading o = o
Outer-unsettled w w' (returned e) (never, _) = cc
Outer-unsettled w w' dialling o = elim o [ ]
Outer-unsettled w w' (pinging _) o = elim o [ ]
Outer-unsettled w w' (disconnecting _) o = elim o [ ]
Outer-unsettled w w' (storing _) o = elim o [ ]
Outer-unsettled w w' (naming _) o = elim o [ ]
Outer-unsettled w w' leaving o = elim o [ ]

-- The end of the body lets those that wait go on.
Outer-settled : (w w' : World) (p : Place) → Outer false w p → Outer true w' p
Outer-settled w w' outside o = tt
Outer-settled w w' (closing h) o = tt
Outer-settled w w' closed o = tt
Outer-settled w w' reading o = refl
Outer-settled w w' (returned e) (never, _) = cc
Outer-settled w w' dialling o = elim o [ ]
Outer-settled w w' (pinging _) o = elim o [ ]
Outer-settled w w' (disconnecting _) o = elim o [ ]
Outer-settled w w' (storing _) o = elim o [ ]
Outer-settled w w' (naming _) o = elim o [ ]
Outer-settled w w' leaving o = elim o [ ]

Held-other :
    (start : World) (holder : Option ℕ) (i : ℕ) (p : Place) (w : World) (places : ℕ → Place)
    → holder ≢ some i
    → Held start holder w places
    → Held start holder w (put_place i p places)
Held-other start none i p w places free h = tt
Held-other start (some j) i p w places free (unsettled, body) =
    elim (put_place_cases i j p places) [
      | inl (same, e) ↦ absurd (free (ap some (sym same)))
      | inr e ↦ (unsettled, subst (AtBody start w) (sym e) body)
    ]

abbrev pub Here : Goroutines → Place → Type 0
Here s p = Outer s.world.c.once s.world p

module _ (start : World) (s : Goroutines) (c : IsConsistent start s) where
  -- A goroutine that stands in the body holds `once`.
  pub holder_of : (i : ℕ) (p : Place) → s.places i ≡ p → ¬ Here s p → s.holder ≡ some i
  holder_of i p e inside = elim (c.outer i) [
    | inl held ↦ held
    | inr o ↦ absurd (inside (subst (Here s) e o))
  ]

  pub held_inner :
      (i : ℕ) → s.holder ≡ some i → (s.world.c.once ≡ false) × AtBody start s.world (s.places i)
  held_inner i held = subst (λ h. Held start h s.world s.places) held c.inner

  pub inner_of :
      (i : ℕ) (p : Place)
      → s.places i ≡ p
      → ¬ Here s p
      → (s.holder ≡ some i) × (s.world.c.once ≡ false) × AtBody start s.world p
  inner_of i p e inside =
      let held = holder_of i p e inside in
      let (unsettled, body) = held_inner i held in
      (held, unsettled, subst (AtBody start s.world) e body)

  -- A step of the goroutine in the body, to a place in the body.
  pub move-IsConsistent :
      (i : ℕ) (p : Place) (w : World) (calls : List Event)
      → s.holder ≡ some i
      → s.world.c.once ≡ false
      → w.c.once ≡ false
      → AtBody start w p
      → IsConsistent start (at_place i p (record s { world = w; calls = calls }))
  move-IsConsistent i p w calls held unsettled unsettled' body = record {
    outer = λ k. elim (put_place_cases i k p s.places) [
      | inl (same, e) ↦ inl (held ∙ ap some same)
      | inr e ↦ elim (c.outer k) [
        | inl h ↦ inl h
        | inr o ↦ inr (
            subst (Outer w.c.once w) (sym e) (
              subst (λ b. Outer b w (s.places k)) (sym unsettled')
                (Outer-unsettled s.world w (s.places k)
                  (subst (λ b. Outer b s.world (s.places k)) unsettled o))))
      ]
    ];
    inner =
        subst (λ h. Held start h w (put_place i p s.places)) (sym held)
          (unsettled', subst (AtBody start w) (sym (put_place_self i p s.places)) body);
    untouched = λ free _. cc;
    settled = λ done. cc;
  }

  -- A step from outside the body to outside the body.
  pub outer_move-IsConsistent :
      (i : ℕ) (p : Place)
      → (s.holder ≢ some i)
      → Here s p
      → (shut : List ℕ) (calls : List Event)
      → IsConsistent start (at_place i p (record s { shut = shut; calls = calls }))
  outer_move-IsConsistent i p free arrives shut calls = record {
    outer = λ k. elim (put_place_cases i k p s.places) [
      | inl (same, e) ↦ inr (subst (Here s) (sym e) arrives)
      | inr e ↦ elim (c.outer k) [ inl h ↦ inl h | inr o ↦ inr (subst (Here s) (sym e) o) ]
    ];
    inner = Held-other start s.holder i p s.world s.places free c.inner;
    untouched = c.untouched;
    settled = c.settled;
  }

  -- A goroutine that does not stand in the body does not hold `once`.
  pub free_of : (i : ℕ) (p : Place) → s.places i ≡ p → ¬ AtBody start s.world p → s.holder ≢ some i
  free_of i p e idle held = idle (subst (AtBody start s.world) e (held_inner i held).1)

  pub reading-settled : (i : ℕ) → s.places i ≡ reading → s.world.c.once ≡ true
  reading-settled i e = elim (c.outer i) [
    | inl held ↦ absurd (free_of i reading e (λ x. x) held)
    | inr o ↦ subst (Here s) e o
  ]

  pub enter-IsConsistent :
      (i : ℕ)
      → s.world.c.once ≡ false
      → s.holder ≡ none
      → IsConsistent start (record s { holder = some i; places = put_place i dialling s.places })
  enter-IsConsistent i unsettled free = record {
    outer = λ k. elim (put_place_cases i k dialling s.places) [
      | inl (same, e) ↦ inl (ap some same)
      | inr e ↦ elim (c.outer k) [ inl h ↦ cc | inr o ↦ inr (subst (Here s) (sym e) o) ]
    ];
    inner = (
      unsettled,
      subst (AtBody start s.world) (sym (put_place_self i dialling s.places))
          (c.untouched free unsettled),
    );
    untouched = λ taken _. cc;
    settled = λ done. cc;
  }

  pub leave-IsConsistent :
      (i : ℕ)
      → s.places i ≡ leaving
      → IsConsistent start
          (at_place i reading (record s { world = with_once s.world; holder = none }))
  leave-IsConsistent i e =
      let (held, unsettled, call) = inner_of i leaving e (λ x. x) in
      record {
        outer = λ k. elim (put_place_cases i k reading s.places) [
          | inl (same, e') ↦ inr (subst (Outer true (with_once s.world)) (sym e') refl)
          | inr e' ↦ elim (c.outer k) [
            | inl h ↦
                let same : i ≡ k = cc in
                inr (
                  subst (λ j. Outer true (with_once s.world) (put_place i reading s.places j)) same
                    (subst (Outer true (with_once s.world))
                      (sym (put_place_self i reading s.places)) refl))
            | inr o ↦ inr (
                subst (Outer true (with_once s.world)) (sym e') (
                  Outer-settled s.world (with_once s.world) (s.places k)
                    (subst (λ b. Outer b s.world (s.places k)) unsettled o)))
          ]
        ];
        inner = tt;
        untouched = λ _ done. cc;
        settled = λ _. call;
      }
