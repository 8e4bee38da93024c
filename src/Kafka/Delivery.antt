-- ===== src/Kafka/Delivery.antt =====
-- Runs of `Start` of kafka/consumer.go on one partition, one behind the other: a process that ends or
-- crashes is started again. A run begins behind the last offset that the broker has stored.
pub mod AtLeastOnce
use core_shared.Base.{ℕ, take, drop, length, true, false, List, [], ◌∷◌, ◌++◌, ◌≡◌}
use core_shared.Http.Ctx.{Logger}
use core_shared.Kafka.Consumer.{
  Message, Answer, fetch_failed, fetched, World, Status, running, returned_nil, crashed, start,
  fresh,
}

-- What the reader and the handler answer in one run, and how many of the offsets that the run gives
-- to `CommitMessages` the broker has stored when the run has ended.
pub record Run : Type 0 where
  pub answers : List Answer
  pub acknowledged : ℕ

-- The reader fetches the messages of the partition in order, from `rest` on.
abbrev pub Follows : List Message → List Answer → Type 0
Follows rest [] = Unit {0}
Follows rest (fetch_failed e done ∷ answers) = Follows rest answers
Follows [] (fetched m h commit ∷ answers) = ⊥
Follows (x ∷ rest) (fetched m h commit ∷ answers) = (x ≡ m) × Follows rest answers

abbrev all_but_last : List Message → List Message
all_but_last [] = []
all_but_last (m ∷ []) = []
all_but_last (m ∷ x ∷ xs) = m ∷ all_but_last (x ∷ xs)

-- The messages on which the handler has returned: all that it was given, but for one on which it
-- panicked.
abbrev pub returned_on : World × Status → List Message
returned_on (w, running) = w.handled
returned_on (w, returned_nil) = w.handled
returned_on (w, crashed p) = all_but_last w.handled

module _ (logger : Logger) where
  -- An offset covers the messages in front of it.
  abbrev pub stored : Run → List Message
  stored run = take run.acknowledged (start logger run.answers fresh).0.committed

  abbrev pub left_behind : List Message → Run → List Message
  left_behind log run = drop (length (stored run)) log

  -- Each run fetches from what the one before it has left.
  abbrev pub FollowsAll : List Message → List Run → Type 0
  FollowsAll log [] = Unit {0}
  FollowsAll log (run ∷ runs) = Follows log run.answers × FollowsAll (left_behind log run) runs

  abbrev pub left_by_all : List Message → List Run → List Message
  left_by_all log [] = log
  left_by_all log (run ∷ runs) = left_by_all (left_behind log run) runs

  -- The messages on which the handler has returned, in all runs.
  abbrev pub returned_in : List Run → List Message
  returned_in [] = []
  returned_in (run ∷ runs) = returned_on (start logger run.answers fresh) ++ returned_in runs
