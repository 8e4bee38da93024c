-- ===== src/Mongo/Client.antt =====
-- mongo/client.go and mongo/health.go: the connection that is made once, on first use. What the
-- driver answers during a call is an argument of the call, and its calls are noted in a trace.
pub mod Settled
pub mod Once
pub mod Goroutines
use core_shared.Base.{
  ℕ, ◌*◌, Text, codes, Bool, true, false, Option, none, some, List, [], ◌∷◌, ◌++◌, ◌==◌, is_empty,
  if◌then◌else◌,
}
use core_shared.Apperror.{Error, plain}

-- A registry is `NewRegistry()` or one of the caller's, a logger the default or one of the
-- caller's; durations are in nanoseconds.
pub data Choice : Type 0 where
  standard : Choice
  custom : ℕ → Choice

pub record Options : Type 0 where
  pub uri : Text
  pub database : Text
  pub max_pool_size : ℕ
  pub connect_timeout : ℕ
  pub server_selection_timeout : ℕ
  pub registry : Option Choice
  pub logger : Option Choice

-- A `*mongo.Client` of the driver is known by its number, a `*mongo.Database` by client and name.
pub record Client : Type 0 where
  pub opts : Options
  pub logger : Choice
  pub once : Bool
  pub conn_err : Option Error
  pub client : Option ℕ
  pub db : Option (ℕ × Text)

pub data Outcome {ℓ} (A : Type ℓ) : Type ℓ where
  ok : A → Outcome A
  err : Error → Outcome A
  -- a nil pointer is dereferenced
  fault : Outcome A

abbrev pub seconds : ℕ → ℕ
seconds n = n * 1000000000

abbrev or_number : ℕ → ℕ → ℕ
or_number n default = if n == 0 then default else n

abbrev or_choice : Option Choice → Choice
or_choice none = standard
or_choice (some c) = c

unfoldable pub new_client : Options → Outcome Client
new_client opts =
    if is_empty opts.uri
    then err (plain (codes "mongo: URI is required"))
    else if is_empty opts.database
    then err (plain (codes "mongo: database is required"))
    else ok (record {
      opts = record opts {
        max_pool_size = or_number opts.max_pool_size 512;
        connect_timeout = or_number opts.connect_timeout (seconds 10);
        server_selection_timeout = or_number opts.server_selection_timeout (seconds 10);
        registry = some (or_choice opts.registry);
      };
      logger = or_choice opts.logger;
      once = false;
      conn_err = none;
      client = none;
      db = none;
    })

-- The driver's calls. `dial` is `mongo.Connect` with the client's options, which succeeded.
pub data Event : Type 0 where
  dial_failed : Event
  dial : ℕ → Event
  pinged : ℕ → Event
  disconnected : ℕ → Event
  listed : ℕ → Event

-- What `mongo.Connect` returns.
pub data Dial : Type 0 where
  dialled : ℕ → Dial
  refused : Error → Dial

-- What the driver would answer during one call of the client.
pub record Driver : Type 0 where
  pub connects : Dial
  pub ping : ℕ → Option Error
  pub disconnect : ℕ → Option Error
  pub list_collections : ℕ → Text → Option Error

pub record World : Type 0 where
  pub c : Client
  pub trace : List Event

-- The body of `once.Do`, from the answer to the ping, and from that to `mongo.Connect`.
unfoldable pub after_ping : World → ℕ → Option Error → World
after_ping w h (some e) = record {
  c = record w.c { once = true; conn_err = some e };
  trace = w.trace ++ dial h ∷ pinged h ∷ disconnected h ∷ [];
}
after_ping w h none = record {
  c = record w.c { once = true; client = some h; db = some (h, w.c.opts.database) };
  trace = w.trace ++ dial h ∷ pinged h ∷ [];
}

unfoldable pub after_dial : Driver → World → Dial → World
unfolding after_ping
after_dial d w (refused e) = record {
  c = record w.c { once = true; conn_err = some e };
  trace = w.trace ++ dial_failed ∷ [];
}
after_dial d w (dialled h) = after_ping w h (d.ping h)

unfoldable pub first_connect : Driver → World → World
unfolding after_dial
first_connect d w = after_dial d w d.connects

-- `once.Do(…)`, then `c.connErr`.
unfoldable pub connected : Driver → World → World
unfolding first_connect
connected d w = if w.c.once then w else first_connect d w

unfoldable pub connect : Driver → World → World × Option Error
connect d w = (connected d w, (connected d w).c.conn_err)

abbrev pub after {ℓ} : {A : Type ℓ} → Option Error → Outcome A → Outcome A
after (some e) result = err e
after none result = result

-- A nil `*mongo.Database` or `*mongo.Client` is returned as it is, and faults when it is used.
abbrev pub deref {ℓ} : {A : Type ℓ} → Option A → Outcome A
deref none = fault
deref (some a) = ok a

unfoldable pub database : Driver → World → World × Outcome (Option (ℕ × Text))
database d w = let (w', e) = connect d w in (w', after e (ok w'.c.db))

unfoldable pub raw : Driver → World → World × Outcome (Option ℕ)
raw d w = let (w', e) = connect d w in (w', after e (ok w'.c.client))

-- `db.Collection(name)` calls a method of the database.
abbrev pub collection_of : Outcome (Option (ℕ × Text)) → Text → Outcome (ℕ × Text × Text)
collection_of (ok (some (h, db))) name = ok (h, db, name)
collection_of (ok none) name = fault
collection_of (err e) name = err e
collection_of fault name = fault

unfoldable pub collection : Driver → World → Text → World × Outcome (ℕ × Text × Text)
collection d w name = let (w', db) = database d w in (w', collection_of db name)

abbrev pub to_outcome : Option Error → Outcome (Unit {0})
to_outcome none = ok tt
to_outcome (some e) = err e

-- A call of `Ping` on the driver's client.
abbrev pub ping_client : Driver → World → Option ℕ → World × Outcome (Unit {0})
ping_client d w none = (w, fault)
ping_client d w (some h) = (record w { trace = w.trace ++ pinged h ∷ [] }, to_outcome (d.ping h))

abbrev pub ping_after : Driver → World × Option Error → World × Outcome (Unit {0})
ping_after d (w, some e) = (w, err e)
ping_after d (w, none) = ping_client d w w.c.client

unfoldable pub ping : Driver → World → World × Outcome (Unit {0})
ping d w = ping_after d (connect d w)

abbrev pub close_client : Driver → World → Option ℕ → World × Outcome (Unit {0})
close_client d w none = (w, ok tt)
close_client d w (some h) =
    (record w { trace = w.trace ++ disconnected h ∷ [] }, to_outcome (d.disconnect h))

unfoldable pub close : Driver → World → World × Outcome (Unit {0})
close d w = close_client d w w.c.client

abbrev pub list_after : Driver → World × Outcome (Option (ℕ × Text)) → World × Outcome (Unit {0})
list_after d (w, ok (some (h, db))) =
    (record w { trace = w.trace ++ listed h ∷ [] }, to_outcome (d.list_collections h db))
list_after d (w, ok none) = (w, fault)
list_after d (w, err e) = (w, err e)
list_after d (w, fault) = (w, fault)

abbrev pub health_after : Driver → World × Outcome (Unit {0}) → World × Outcome (Unit {0})
health_after d (w, ok _) = list_after d (database d w)
health_after d (w, err e) = (w, err e)
health_after d (w, fault) = (w, fault)

-- `HealthCheck`; `none` is a nil client.
unfoldable pub health_check : Driver → World → World × Outcome (Unit {0})
unfolding database
health_check d w = health_after d (ping d w)

abbrev pub health_check_nil : Outcome (Unit {0})
health_check_nil = err (plain (codes "mongo: nil client"))
