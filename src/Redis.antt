-- ===== src/Redis.antt =====
-- redis/client.go. What go-redis does to a database is a record; the methods pass their calls to it.
pub mod Leak
use core_shared.Base.{ℕ, Text, codes, Option, none, some, List, [], ◌∷◌, ◌++◌, ℤ}
use core_shared.Apperror.{Error, wrapped}
use core_shared.Returns.{Result, ok, err}
use core_shared.Http.Ctx.{Logger}

pub record RedisOptions : Type 0 where
  pub addr : Text
  pub password : Text
  pub db : ℤ

-- The calls of the library: a client with its pool of connections is made, pinged, closed.
pub data Event : Type 0 where
  opened : RedisOptions → Event
  pinged closed : Event
  logged_connected : Logger → Text → ℤ → Event

-- The client, known by its options.
pub record Client : Type 0 where
  pub rdb : RedisOptions
  pub logger : Logger

abbrev pub after_ping :
    RedisOptions → Logger → Option Error → List Event → List Event × Result Client
after_ping o log (some e) w = (w, err (wrapped (codes "redis ping") e))
after_ping o log none w =
    (w ++ logged_connected log o.addr o.db ∷ [], ok (record { rdb = o; logger = log }))

-- `answer` is the error of the ping.
unfoldable pub new_client : Option Error → Text → Text → ℤ → Logger → List Event × Result Client
new_client answer addr password db log =
    let o : RedisOptions = record { addr = addr; password = password; db = db } in
    after_ping o log answer (opened o ∷ pinged ∷ [])

-- `Close`
unfoldable pub close : Client → List Event → List Event
close c w = w ++ closed ∷ []

-- The commands of go-redis on a database `S`: the value or an error (`redis.Nil` for a missing
-- key), and errors.
pub record Commands (S : Type 0) : Type 0 where
  pub get_value : Text → S → Result Text
  pub set_value : Text → Text → ℤ → S → S × Option Error
  pub delete : List Text → S → S × Option Error
  pub ping_answer : S → Option Error

module _ {S : Type 0} (rdb : Commands S) where
  unfoldable pub get : Text → S → Result Text
  get key = rdb.get_value key

  -- `ttl` is the number of nanoseconds.
  unfoldable pub set : Text → Text → ℤ → S → S × Option Error
  set key new_value ttl = rdb.set_value key new_value ttl

  unfoldable pub del : List Text → S → S × Option Error
  del keys = rdb.delete keys

  unfoldable pub ping : S → Option Error
  ping = rdb.ping_answer
