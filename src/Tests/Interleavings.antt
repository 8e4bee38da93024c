-- ===== src/Tests/Interleavings.antt =====
-- Interleaved calls of mongo/client.go, and runs of kafka/consumer.go one behind the other, at
-- concrete inputs.
use core_shared.Base.{Text, codes, true, false, none, some, List, [], ◌∷◌, ◌++◌, ◌≡◌, refl}
use core_shared.Apperror.{plain}
use core_shared.Mongo.Client.{
  Client, Driver, World, connect, standard, seconds, dial, pinged, disconnected,
}
use core_shared.Mongo.Client.Goroutines.{
  Goroutines, closing, started, Reach, here, next, enter, accept, answer, store_client, store_db,
  leave, look, pass, read, close_open,
}
use core_shared.Mongo.Client.Goroutines.Calls.{Interleaved}
use core_shared.Mongo.Client.Goroutines.Single.{Reach-connect}
use core_shared.Mongo.Client.Goroutines.Progress.{CanReturn, Reach-connect_returns}
use core_shared.Kafka.Consumer.{
  Message, succeeded, failed, panicked, fetch_failed, fetched, start, turn, after_handler,
}
use core_shared.Kafka.Delivery.{Run, left_by_all, returned_in}
use core_shared.Kafka.Delivery.AtLeastOnce.{Within, at_least_once}

abbrev built : Client
built = record {
  opts = record {
    uri = codes "mongodb://localhost";
    database = codes "dev";
    max_pool_size = 512;
    connect_timeout = seconds 10;
    server_selection_timeout = seconds 10;
    registry = some standard;
    logger = none;
  };
  logger = standard;
  once = false;
  conn_err = none;
  client = none;
  db = none;
}

abbrev begin : World
begin = record { c = built; trace = [] }

-- Goroutine 0 dials and its ping is answered. It has stored the client and not the database when
-- goroutine 2 reads the client for `Close`.
abbrev stored : (s : Goroutines) × Reach (started begin) s
stored = (
  _,
  next
      (next (next (next (next here (enter 0 refl refl refl)) (accept 0 7 refl)) (answer 0 7 refl))
        (store_client 0 7 refl))
      (look 2 refl),
)

-- Goroutine 0 leaves the body and returns, goroutine 1 stands behind `Do`.
abbrev closing_early : (s : Goroutines) × Reach (started begin) s
closing_early = (
  _,
  next (next (next (next stored.1 (store_db 0 7 refl)) (leave 0 refl)) (read 0 refl))
      (pass 1 refl refl),
)

closed_while_stored : closing_early.0.places 2 ≡ closing (some 7)
closed_while_stored = refl

-- Goroutine 2 disconnects the client.
abbrev closed_early : (s : Goroutines) × Reach (started begin) s
closed_early = (_, next closing_early.1 (close_open 2 7 refl))

Reach-connect_example :
    ((d : Driver) × ((closed_early.0.world, none) ≡ connect d begin))
    × Interleaved
        (dial 7 ∷ pinged 7 ∷ [])
        (disconnected 7 ∷ [])
        (dial 7 ∷ pinged 7 ∷ disconnected 7 ∷ [])
Reach-connect_example = Reach-connect begin refl 0 closed_early.1 refl

-- Goroutine 3 stands before its call while goroutine 0 is in the body.
Reach-connect_returns_example : CanReturn 3 stored.0
Reach-connect_returns_example = Reach-connect_returns begin 3 refl stored.1 (λ x. x)

abbrev order : Text → Message
order name = record { key = name; bytes = codes "{}" }

abbrev log : List Message
log = order (codes "1") ∷ order (codes "2") ∷ order (codes "3") ∷ []

-- The first run handles two messages, of which one commit is stored, and the handler panics on
-- the third; the second run starts at the second message.
abbrev runs : List Run
runs =
    record {
      answers =
          fetched (order (codes "1")) succeeded none
          ∷ fetched (order (codes "2")) (failed (plain (codes "no such order")))
              (some (plain (codes "EOF")))
          ∷ fetched (order (codes "3")) (panicked (codes "nil map")) none
          ∷ [];
      acknowledged = 1;
    }
    ∷ record {
      answers =
          fetched (order (codes "2")) succeeded none ∷ fetch_failed (plain (codes "EOF")) true ∷ [];
      acknowledged = 1;
    }
    ∷ []

left_run : left_by_all [] log runs ≡ order (codes "3") ∷ []
unfolding start turn after_handler
left_run = refl

at_least_once_example :
    (done : List Message) × (log ≡ done ++ left_by_all [] log runs)
    × Within done (returned_in [] runs)
unfolding start turn after_handler
at_least_once_example = at_least_once [] log runs ((refl, (refl, (refl, tt))), ((refl, tt), tt))
