-- ===== src/Kafka/Consumer/Laws.antt =====
-- What the loop of kafka/consumer.go handles, commits and logs.
use core_shared.Base.{
  repeat, ℕ, suc, zero, true, false, Option, List, [], ◌∷◌, ◌++◌, append_assoc, append-nil, All,
  ◌≡◌, ◌∙◌, sym, ap, refl, arith,
}
use core_shared.Apperror.{Error}
use core_shared.Http.{LogRecord}
use core_shared.Http.Ctx.{Logger}
use core_shared.Kafka.Consumer.{
  Message, Handled, succeeded, failed, panicked, Answer, fetch_failed, fetched, Status, running,
  returned_nil, crashed, World, fetch_error, handler_logs, commit_logs, turn, after_handler, start,
  resume, fresh,
}

-- After `m` the loop goes on.
abbrev pub IsHandled : Handled → Type 0
IsHandled (panicked p) = ⊥
IsHandled h = Unit {0}

abbrev pub Continues : Answer → Type 0
Continues (fetch_failed e done) = done ≡ false
Continues (fetched m h commit) = IsHandled h

-- The messages that were fetched, in order.
abbrev pub messages : List Answer → List Message
messages [] = []
messages (fetch_failed e done ∷ answers) = messages answers
messages (fetched m h commit ∷ answers) = m ∷ messages answers

-- The records of one answer, and of all.
abbrev pub records : Logger → Answer → List LogRecord
records log (fetch_failed e done) = fetch_error log e ∷ []
records log (fetched m h commit) = handler_logs log m h ++ commit_logs log commit

abbrev pub all_records : Logger → List Answer → List LogRecord
all_records log [] = []
all_records log (a ∷ answers) = records log a ++ all_records log answers

-- What a world becomes by answers that all go on.
abbrev pub advanced : Logger → List Answer → World → World
advanced log answers w = record {
  handled = w.handled ++ messages answers;
  committed = w.committed ++ messages answers;
  logs = w.logs ++ all_records log answers;
}

world_eq :
    {hs hs' cs cs' : List Message} {ls ls' : List LogRecord}
    → hs ≡ hs'
    → cs ≡ cs'
    → ls ≡ ls'
    → ◌≡◌ {A = World}
        (record { handled = hs; committed = cs; logs = ls })
        (record { handled = hs'; committed = cs'; logs = ls' })
world_eq p q r = λ i. record { handled = p i; committed = q i; logs = r i }

-- A step of `start` keeps this: all that was handled was given to `CommitMessages`, but for
-- the message on which the handler panicked.
abbrev pub IsInStep : World × Status → Type 0
IsInStep (w, crashed p) = (m : Message) × (w.handled ≡ w.committed ++ m ∷ [])
IsInStep (w, state) = w.handled ≡ w.committed

module _ (log : Logger) where
  handled_lem :
      (m : Message) (h : Handled) (commit : Option Error) (w : World)
      → IsHandled h
      → after_handler log m h commit w ≡ (advanced log (fetched m h commit ∷ []) w, running)
  unfolding after_handler
  handled_lem m succeeded commit w c =
      ap (λ (v : World). (v, running))
        (world_eq refl refl (append_assoc w.logs _ _ ∙ ap (λ l. w.logs ++ l) (sym (append-nil _))))
  handled_lem m (failed e) commit w c =
      ap (λ (v : World). (v, running))
        (world_eq refl refl (append_assoc w.logs _ _ ∙ ap (λ l. w.logs ++ l) (sym (append-nil _))))
  handled_lem m (panicked p) commit w c = elim c [ ]

  turn-Continues :
      (a : Answer) (w : World) → Continues a → turn log a w ≡ (advanced log (a ∷ []) w, running)
  unfolding turn
  turn-Continues (fetch_failed e false) w c =
      ap (λ (v : World). (v, running))
        (world_eq (sym (append-nil w.handled)) (sym (append-nil w.committed)) refl)
  turn-Continues (fetch_failed e true) w c = ground arith
  turn-Continues (fetched m h commit) w c = handled_lem m h commit w c

  advanced-cons :
      (a : Answer) (answers : List Answer) (w : World)
      → advanced log answers (advanced log (a ∷ []) w) ≡ advanced log (a ∷ answers) w
  advanced-cons (fetch_failed e done) answers w =
      world_eq (append_assoc w.handled [] _) (append_assoc w.committed [] _)
        (append_assoc w.logs (records log (fetch_failed e done)) _)
  advanced-cons (fetched m h commit) answers w =
      world_eq (append_assoc w.handled (m ∷ []) _) (append_assoc w.committed (m ∷ []) _) (
        ap (λ l. w.logs ++ l ++ all_records log answers)
          (append-nil (records log (fetched m h commit)))
        ∙ append_assoc w.logs (records log (fetched m h commit)) _)

  -- Answers on which the loop goes on are worked off before those behind them.
  start-append :
      (before rest : List Answer) (w : World)
      → All Continues before
      → start log (before ++ rest) w ≡ start log rest (advanced log before w)
  unfolding start
  start-append [] rest w c = ap (start log rest) (
      world_eq (sym (append-nil w.handled)) (sym (append-nil w.committed))
        (sym (append-nil w.logs)))
  start-append (a ∷ before) rest w (c, cs) =
      ap (resume (λ w'. start log (before ++ rest) w')) (turn-Continues a w c)
      ∙ start-append before rest (advanced log (a ∷ []) w) cs
      ∙ ap (start log rest) (advanced-cons a before w)

  -- Once the context is done and a fetch fails for it, `Start` returns nil: before that, every
  -- message fetched was handled once and then given to `CommitMessages` once, in the order of
  -- the fetches and whatever error the handler returned, and every error was logged.
  pub start_returns :
      (before rest : List Answer) (e : Error)
      → All Continues before
      → start log (before ++ fetch_failed e true ∷ rest) fresh ≡ (
        record {
          handled = messages before;
          committed = messages before;
          logs = all_records log before;
        },
        returned_nil,
      )
  unfolding start turn
  start_returns before rest e c = start-append before (fetch_failed e true ∷ rest) fresh c

  spins_from :
      (n : ℕ) (e : Error) (w : World)
      → start log (repeat n (fetch_failed e false)) w
        ≡ (record w { logs = w.logs ++ repeat n (fetch_error log e) }, running)
  unfolding start turn
  spins_from zero e w =
      ap (λ (v : World). (v, running)) (world_eq refl refl (sym (append-nil w.logs)))
  spins_from (suc n) e w =
      spins_from n e (record w { logs = w.logs ++ fetch_error log e ∷ [] })
      ∙ ap (λ (v : World). (v, running))
          (world_eq refl refl (append_assoc w.logs (fetch_error log e ∷ []) _))

  -- Where every fetch fails and the context lives, as behind `Close`, `Start` is in its loop
  -- after any number of turns, and has logged an error in each.
  pub start_spins :
      (n : ℕ) (e : Error)
      → start log (repeat n (fetch_failed e false)) fresh
        ≡ (record { handled = []; committed = []; logs = repeat n (fetch_error log e) }, running)
  start_spins n e = spins_from n e fresh

  after_handler-IsInStep :
      (m : Message) (h : Handled) (commit : Option Error) (w : World)
      → w.handled ≡ w.committed
      → IsInStep (after_handler log m h commit w)
  unfolding after_handler
  after_handler-IsInStep m succeeded commit w e = ap (λ ms. ms ++ m ∷ []) e
  after_handler-IsInStep m (failed x) commit w e = ap (λ ms. ms ++ m ∷ []) e
  after_handler-IsInStep m (panicked p) commit w e = (m, ap (λ ms. ms ++ m ∷ []) e)

  turn-IsInStep : (a : Answer) (w : World) → w.handled ≡ w.committed → IsInStep (turn log a w)
  unfolding turn
  turn-IsInStep (fetch_failed x false) w e = e
  turn-IsInStep (fetch_failed x true) w e = e
  turn-IsInStep (fetched m h commit) w e = after_handler-IsInStep m h commit w e

  resume-IsInStep :
      (loop : World → World × Status)
      → ((w : World) → w.handled ≡ w.committed → IsInStep (loop w))
      → (r : World × Status) → IsInStep r
      → IsInStep (resume loop r)
  resume-IsInStep loop keeps (w, running) e = keeps w e
  resume-IsInStep loop keeps (w, returned_nil) e = e
  resume-IsInStep loop keeps (w, crashed p) e = e

  -- From a state where the messages that were handled and those given to `CommitMessages` are the
  -- same, and whatever the reader and the handler answer, they are the same in the state that
  -- `Start` comes to, in the same order; only a message on which the handler panicked, the last,
  -- is handled and not committed.
  pub start-IsInStep :
      (answers : List Answer) (w : World) → w.handled ≡ w.committed → IsInStep (start log answers w)
  unfolding start
  start-IsInStep [] w e = e
  start-IsInStep (a ∷ answers) w e =
      resume-IsInStep (start log answers) (start-IsInStep answers) (turn log a w)
        (turn-IsInStep a w e)
