-- ===== src/Kafka/Delivery/AtLeastOnce.antt =====
-- Which messages of a partition the handler of kafka/consumer.go has returned on, whatever runs of
-- the consumer end early.
use core_shared.Base.{
  ℕ, zero, suc, true, false, take, drop, length, List, [], ◌∷◌, ◌++◌, append_assoc, append-nil, ◌≡◌,
  ◌∙◌, ap, sym, refl,
}
use core_shared.Http.Ctx.{Logger}
use core_shared.Kafka.Consumer.{
  Message, succeeded, failed, panicked, Answer, fetch_failed, fetched, World, Status, running,
  returned_nil, crashed, after_handler, turn, start, fresh,
}
use core_shared.Kafka.Consumer.Laws.{IsInStep, start-IsInStep}
use core_shared.Kafka.Delivery.{
  Run, Follows, all_but_last, returned_on, stored, left_behind, FollowsAll, left_by_all,
  returned_in,
}

-- The first list stands in the second, in its order, with other items in between.
pub data Within : List Message → List Message → Type 0 where
  nothing : Within [] []
  keep : {m : Message} {xs ys : List Message} → Within xs ys → Within (m ∷ xs) (m ∷ ys)
  skip : {m : Message} {xs ys : List Message} → Within xs ys → Within xs (m ∷ ys)

Within-append :
    (n : ℕ) (xs : List Message) {ys zs : List Message}
    → Within ys zs
    → Within (take n xs ++ ys) (xs ++ zs)
Within-append zero [] w = w
Within-append zero (x ∷ xs) w = skip (Within-append zero xs w)
Within-append (suc n) [] w = w
Within-append (suc n) (x ∷ xs) w = keep (Within-append n xs w)

all_but_last-append : (ms : List Message) (m : Message) → all_but_last (ms ++ m ∷ []) ≡ ms
all_but_last-append [] m = refl
all_but_last-append (x ∷ []) m = refl
all_but_last-append (x ∷ y ∷ ms) m = ap (λ l. x ∷ l) (all_but_last-append (y ∷ ms) m)

-- The handler has returned on exactly what was given to `CommitMessages`.
returned_on-IsInStep : (r : World × Status) → IsInStep r → returned_on r ≡ r.0.committed
returned_on-IsInStep (w, running) e = e
returned_on-IsInStep (w, returned_nil) e = e
returned_on-IsInStep (w, crashed p) (m, e) = ap all_but_last e ∙ all_but_last-append w.committed m

drop-length :
    (n : ℕ) (xs ys : List Message) → xs ++ ys ≡ take n xs ++ drop (length (take n xs)) (xs ++ ys)
drop-length zero xs ys = refl
drop-length (suc n) [] ys = refl
drop-length (suc n) (x ∷ xs) ys = ap (λ l. x ∷ l) (drop-length n xs ys)

front_split :
    (n : ℕ) (log taken behind committed : List Message)
    → log ≡ taken ++ behind
    → committed ≡ taken
    → log ≡ take n committed ++ drop (length (take n committed)) log
front_split n log taken behind committed e c = rw (e, c) (drop-length n taken behind)

-- `committed` has grown by messages off the front of `rest`.
abbrev TakesFrom : List Message → List Message → List Message → Type 0
TakesFrom rest before committed =
    (taken : List Message) × (behind : List Message) × (rest ≡ taken ++ behind)
    × (committed ≡ before ++ taken)

TakesFrom-cons :
    (m x : Message) (rest before committed : List Message)
    → x ≡ m
    → TakesFrom rest (before ++ m ∷ []) committed
    → TakesFrom (x ∷ rest) before committed
TakesFrom-cons m x rest before committed same (taken, behind, e, grown) =
    (m ∷ taken, behind, (λ i. same i ∷ e i), grown ∙ append_assoc before (m ∷ []) taken)

module _ (logger : Logger) where
  -- A run that fetches from `rest` on commits messages off its front.
  start-TakesFrom :
      (answers : List Answer) (rest : List Message) (w : World)
      → Follows rest answers
      → TakesFrom rest w.committed (start logger answers w).0.committed
  unfolding start turn after_handler
  start-TakesFrom [] rest w f = ([], rest, refl, sym (append-nil w.committed))
  start-TakesFrom (fetch_failed e true ∷ answers) rest w f =
      ([], rest, refl, sym (append-nil w.committed))
  start-TakesFrom (fetch_failed e false ∷ answers) rest w f = start-TakesFrom answers rest _ f
  start-TakesFrom (fetched m h commit ∷ answers) [] w f = elim f [ ]
  start-TakesFrom (fetched m (panicked p) commit ∷ answers) (x ∷ rest) w f =
      ([], x ∷ rest, refl, sym (append-nil w.committed))
  start-TakesFrom (fetched m succeeded commit ∷ answers) (x ∷ rest) w (same, f) =
      TakesFrom-cons m x rest w.committed _ same (start-TakesFrom answers rest _ f)
  start-TakesFrom (fetched m (failed y) commit ∷ answers) (x ∷ rest) w (same, f) =
      TakesFrom-cons m x rest w.committed _ same (start-TakesFrom answers rest _ f)

  -- What the broker has stored of a run is the front of the log.
  stored-left_behind :
      (log : List Message) (run : Run)
      → Follows log run.answers
      → log ≡ stored logger run ++ left_behind logger log run
  stored-left_behind log run f =
      let (taken, behind, e, committed) = start-TakesFrom run.answers log fresh f in
      front_split run.acknowledged log taken behind _ e committed

  returned-Within :
      (run : Run) (done later : List Message)
      → Within done later
      → Within (stored logger run ++ done) (returned_on (start logger run.answers fresh) ++ later)
  returned-Within run done later within =
      rw
        (returned_on-IsInStep (start logger run.answers fresh)
          (start-IsInStep logger run.answers fresh refl))
        (Within-append run.acknowledged (start logger run.answers fresh).0.committed within)

  -- Over any number of runs of the consumer on one partition, each of which begins behind the last
  -- stored offset, ends or crashes anywhere, and has any number of the offsets that it committed
  -- stored: the messages in front of the stored offset are among those on which the handler has
  -- returned, each at least once and in the order of the partition. No message is passed over.
  pub at_least_once :
      (log : List Message) (runs : List Run)
      → FollowsAll logger log runs
      → (done : List Message) × (log ≡ done ++ left_by_all logger log runs)
        × Within done (returned_in logger runs)
  at_least_once log [] f = ([], refl, nothing)
  at_least_once log (run ∷ runs) (f, fs) =
      let (done, off, within) = at_least_once (left_behind logger log run) runs fs in
      (
        stored logger run ++ done,
        stored-left_behind log run f
            ∙ ap (λ l. stored logger run ++ l) off
            ∙ sym (append_assoc (stored logger run) done _),
        returned-Within run done (returned_in logger runs) within,
      )
