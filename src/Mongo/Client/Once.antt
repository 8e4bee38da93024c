-- ===== src/Mongo/Client/Once.antt =====
-- The client of mongo/client.go over any sequence of calls: it connects at most once, keeps the
-- outcome, leaks no connection and never uses a nil one.
use core_shared.Base.{
  ℕ, ◌≤◌, Text, Option, none, some, List, [], ◌∷◌, ◌++◌, ◌≡◌, ◌≢◌, ap, refl, sym, All, arith,
}
use mathlib.Core.Path.{subst}
use core_shared.Apperror.{Error}
use core_shared.Mongo.Client.{
  Options, Client, Outcome, ok, err, fault, new_client, Event, pinged, disconnected, listed, Driver,
  World, first_connect, connected, connect, after, to_outcome, collection_of, ping_client,
  ping_after, close_client, list_after, health_after, database, raw, collection, ping, close,
  health_check,
}
use core_shared.Mongo.Client.Settled.{
  dials, dial_count, IsSettled, failed, live, IsSound, fresh, settled, connected-once,
  connected_first, IsSettled-once, connected-IsSettled, more-IsSettled, Balanced,
  after_dial-Balanced,
}

-- A call of the client, with its answer forgotten.
pub data Op : Type 0 where
  op_connect op_database op_raw op_ping op_close op_health : Op
  op_collection : Text → Op

abbrev pub forget {ℓ} : {A : Type ℓ} → Outcome A → Outcome (Unit {0})
forget (ok a) = ok tt
forget (err e) = err e
forget fault = fault

-- The pointers that `Database` and `Raw` return are used by their callers, so a nil one counts as
-- a fault here.
abbrev used {ℓ} : {A : Type ℓ} → Outcome (Option A) → Outcome (Unit {0})
used (ok (some a)) = ok tt
used (ok none) = fault
used (err e) = err e
used fault = fault

pub run : Op → Driver → World → World × Outcome (Unit {0})
run op_connect d w = ((connect d w).0, to_outcome (connect d w).1)
run op_database d w = ((database d w).0, used (database d w).1)
run op_raw d w = ((raw d w).0, used (raw d w).1)
run op_ping d w = ping d w
run op_close d w = close d w
run op_health d w = health_check d w
run (op_collection name) d w = ((collection d w name).0, forget (collection d w name).1)

record GoodRun (p : World × Outcome (Unit {0})) : Type 0 where
  sound : IsSound p.0
  no_fault : p.1 ≢ fault

-- With no error kept, the client and its database are there.
record IsLive (w : World) : Type 0 where
  handle : ℕ
  client : w.c.client ≡ some handle
  db : w.c.db ≡ some (handle, w.c.opts.database)

IsSettled-IsLive : {w : World} → IsSettled w → w.c.conn_err ≡ none → IsLive w
IsSettled-IsLive (failed e o x n k) h = absurd (ground arith)
IsSettled-IsLive (live h o x n b k) _ = record { handle = h; client = n; db = b }

to_outcome-ne_fault : (e : Option Error) → to_outcome e ≢ fault
to_outcome-ne_fault none = ground arith
to_outcome-ne_fault (some e) = ground arith

-- A call whose answer is `result` where the connection is there.
module _ (w : World) (s : IsSettled w) where
  err-GoodRun : (e : Error) → GoodRun (w, err e)
  err-GoodRun e = record { sound = settled s; no_fault = ground arith }

  ok-GoodRun : GoodRun (w, ok tt)
  ok-GoodRun = record { sound = settled s; no_fault = ground arith }

  event-GoodRun :
      (t : List Event) (answer : Option Error)
      → dials t ≡ 0
      → GoodRun (record w { trace = w.trace ++ t }, to_outcome answer)
  event-GoodRun t answer z = record {
    sound = settled (more-IsSettled w t z s);
    no_fault = to_outcome-ne_fault answer;
  }

  used_database-GoodRun :
      (e : Option Error) → w.c.conn_err ≡ e → GoodRun (w, used (after e (ok w.c.db)))
  used_database-GoodRun (some e) x = err-GoodRun e
  used_database-GoodRun none x =
      subst (λ b. GoodRun (w, used (after none (ok b)))) (sym (IsSettled-IsLive s x).db) ok-GoodRun

  used_raw-GoodRun :
      (e : Option Error) → w.c.conn_err ≡ e → GoodRun (w, used (after e (ok w.c.client)))
  used_raw-GoodRun (some e) x = err-GoodRun e
  used_raw-GoodRun none x =
      subst (λ c. GoodRun (w, used (after none (ok c)))) (sym (IsSettled-IsLive s x).client)
        ok-GoodRun

  collection-GoodRun :
      (name : Text) (e : Option Error)
      → w.c.conn_err ≡ e
      → GoodRun (w, forget (collection_of (after e (ok w.c.db)) name))
  collection-GoodRun name (some e) x = err-GoodRun e
  collection-GoodRun name none x =
      subst (λ b. GoodRun (w, forget (collection_of (after none (ok b)) name)))
        (sym (IsSettled-IsLive s x).db) ok-GoodRun

  ping_after-GoodRun :
      (d : Driver) (e : Option Error) → w.c.conn_err ≡ e → GoodRun (ping_after d (w, e))
  ping_after-GoodRun d (some e) x = err-GoodRun e
  ping_after-GoodRun d none x =
      let l = IsSettled-IsLive s x in
      subst (λ c. GoodRun (ping_client d w c)) (sym l.client)
        (event-GoodRun (pinged l.handle ∷ []) (d.ping l.handle) refl)

  list_after-GoodRun :
      (d : Driver) (e : Option Error)
      → w.c.conn_err ≡ e
      → GoodRun (list_after d (w, after e (ok w.c.db)))
  list_after-GoodRun d (some e) x = err-GoodRun e
  list_after-GoodRun d none x =
      let l = IsSettled-IsLive s x in
      subst (λ b. GoodRun (list_after d (w, after none (ok b)))) (sym l.db)
        (event-GoodRun (listed l.handle ∷ []) (d.list_collections l.handle w.c.opts.database) refl)

close-GoodRun : (d : Driver) (w : World) → IsSound w → GoodRun (close d w)
unfolding close
close-GoodRun d w (fresh o x n t) =
    subst (λ c. GoodRun (close_client d w c)) (sym n)
      (record { sound = fresh o x n t; no_fault = ground arith })
close-GoodRun d w (settled (failed e o x n k)) =
    subst (λ c. GoodRun (close_client d w c)) (sym n) (ok-GoodRun w (failed e o x n k))
close-GoodRun d w (settled (live h o x n b k)) =
    subst (λ c. GoodRun (close_client d w c)) (sym n)
      (event-GoodRun w (live h o x n b k) (disconnected h ∷ []) (d.disconnect h) refl)

health_after-GoodRun :
    (d : Driver) (p : World × Outcome (Unit {0})) → GoodRun p → GoodRun (health_after d p)
unfolding database connect
health_after-GoodRun d (w, ok _) g =
    list_after-GoodRun (connected d w) (connected-IsSettled d w g.sound) d _ refl
health_after-GoodRun d (w, err e) g = g
health_after-GoodRun d (w, fault) g = g

pub new_client-IsSound :
    (opts : Options) (c : Client) → new_client opts ≡ ok c → IsSound (record { c = c; trace = [] })
unfolding new_client
new_client-IsSound opts c made = fresh (ground arith) (ground arith) (ground arith) refl

module _ (d : Driver) (w : World) (s : IsSound w) where
  ping-GoodRun : GoodRun (ping d w)
  unfolding ping connect
  ping-GoodRun = ping_after-GoodRun (connected d w) (connected-IsSettled d w s) d _ refl

  run-GoodRun : (op : Op) → GoodRun (run op d w)
  unfolding run connect database raw collection health_check
  run-GoodRun op_connect = record {
    sound = settled (connected-IsSettled d w s);
    no_fault = to_outcome-ne_fault (connected d w).c.conn_err;
  }
  run-GoodRun op_database = used_database-GoodRun (connected d w) (connected-IsSettled d w s) _ refl
  run-GoodRun op_raw = used_raw-GoodRun (connected d w) (connected-IsSettled d w s) _ refl
  run-GoodRun op_ping = ping-GoodRun
  run-GoodRun op_close = close-GoodRun d w s
  run-GoodRun op_health = health_after-GoodRun d (ping d w) ping-GoodRun
  run-GoodRun (op_collection name) =
      collection-GoodRun (connected d w) (connected-IsSettled d w s) name _ refl

-- Calls in a row, each with what the driver answers then; the answers are collected.
pub run_all : List (Op × Driver) → World → World × List (Outcome (Unit {0}))
run_all [] w = (w, [])
run_all ((op, d) ∷ ops) w =
    let (w', answer) = run op d w in let (w'', answers) = run_all ops w' in (w'', answer ∷ answers)

run_all-IsSound :
    (ops : List (Op × Driver)) (w : World)
    → IsSound w
    → IsSound (run_all ops w).0 × All (λ o. o ≢ fault) (run_all ops w).1
unfolding run_all
run_all-IsSound [] w s = (s, tt)
run_all-IsSound ((op, d) ∷ ops) w s =
    let g = run-GoodRun d w s op in
    let (later, rest) = run_all-IsSound ops (run op d w).0 g.sound in (later, (g.no_fault, rest))

IsSound-dials : {w : World} → IsSound w → dial_count w ≤ 1
IsSound-dials (fresh o x n t) = rw t (omega arith)
IsSound-dials (settled (failed e o x n k)) = omega arith
IsSound-dials (settled (live h o x n b k)) = omega arith

-- Whatever calls are made on a client that `NewClient` has built, in whatever order and whatever
-- the driver answers, the driver is dialled at most once and no call uses a nil pointer.
pub client_runs :
    (opts : Options) (c : Client) (ops : List (Op × Driver))
    → new_client opts ≡ ok c
    → (dial_count (run_all ops (record { c = c; trace = [] })).0 ≤ 1)
      × All (λ o. o ≢ fault) (run_all ops (record { c = c; trace = [] })).1
client_runs opts c ops made =
    let (s, answers) =
      run_all-IsSound ops (record { c = c; trace = [] }) (new_client-IsSound opts c made) in
    (IsSound-dials s, answers)

-- The first call of `Connect` decides: every later one changes nothing, calls the driver for
-- nothing, and returns the same error or none.
pub connect_sticky :
    (opts : Options) (c : Client) (d later : Driver)
    → new_client opts ≡ ok c
    → connect later (connect d (record { c = c; trace = [] })).0
      ≡ connect d (record { c = c; trace = [] })
unfolding connect
connect_sticky opts c d later made =
    let s = connected-IsSettled d (record { c = c; trace = [] }) (new_client-IsSound opts c made) in
    let same =
      connected-once later (connected d (record { c = c; trace = [] })) (IsSettled-once s) in
    ap (λ (w : World). (w, w.c.conn_err)) same

-- `Connect` on a client that `NewClient` has built leaves open the connection that the client
-- holds, and no other: where the ping fails, the connection that was dialled is closed.
pub connect_no_leak :
    (opts : Options) (c : Client) (d : Driver)
    → new_client opts ≡ ok c
    → Balanced (connect d (record { c = c; trace = [] })).0
unfolding connect first_connect new_client
connect_no_leak opts c d made =
    subst Balanced (sym (connected_first d (record { c = c; trace = [] }) (ground arith)))
      (after_dial-Balanced d c (ground arith) d.connects)
