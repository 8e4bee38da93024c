-- ===== src/Mongo/Client/Goroutines.antt =====
-- mongo/client.go with goroutines: calls of `Connect` and `Close` on one client, step by step. A
-- world of the client is shared; `once` lets one goroutine into the body and the others wait.
pub mod Invariant
pub mod Single
pub mod Calls
pub mod Progress
use core_shared.Base.{
  ℕ, Bool, true, false, Option, none, some, List, [], ◌∷◌, ◌++◌, ◌==◌, if◌then◌else◌, ◌≡◌,
}
use core_shared.Apperror.{Error}
use core_shared.Mongo.Client.{Client, World, Event, dial_failed, dial, pinged, disconnected}

-- Where a goroutine stands: before its call; in the body of `once.Do`, in front of the call of
-- `mongo.Connect`, of `Ping`, of `Disconnect`, of the writes of `client` and of `db`, and of the
-- end of the body; behind `once.Do`; at the end of `Connect`; and in `Close`, with the client that
-- it has read, and at its end.
pub data Place : Type 0 where
  outside dialling : Place
  pinging disconnecting storing naming : ℕ → Place
  leaving reading : Place
  returned : Option Error → Place
  closing : Option ℕ → Place
  closed : Place

-- `holder` is the goroutine that is in the body, `calls` are the calls of the driver in their
-- order. Of these the trace of `world` has those that `Connect` makes, and `shut` the clients that
-- calls of `Close` have disconnected.
pub record Goroutines : Type 0 where
  pub world : World
  pub holder : Option ℕ
  pub places : ℕ → Place
  pub shut : List ℕ
  pub calls : List Event

abbrev pub put_place : ℕ → Place → (ℕ → Place) → ℕ → Place
put_place i p places j = if i == j then p else places j

abbrev pub at_place : ℕ → Place → Goroutines → Goroutines
at_place i p s = record s { places = put_place i p s.places }

abbrev pub noted : Event → World → World
noted e w = record w { trace = w.trace ++ e ∷ [] }

abbrev pub with_error : Error → World → World
with_error e w = record w { c = record w.c { conn_err = some e } }

abbrev pub with_client : ℕ → World → World
with_client h w = record w { c = record w.c { client = some h } }

abbrev pub with_db : ℕ → World → World
with_db h w = record w { c = record w.c { db = some (h, w.c.opts.database) } }

abbrev pub with_once : World → World
with_once w = record w { c = record w.c { once = true } }

-- One step of the goroutine `i`.
pub data Step (s : Goroutines) : Goroutines → Type 0 where
  enter :
      (i : ℕ)
      → s.places i ≡ outside
      → s.world.c.once ≡ false
      → s.holder ≡ none
      → Step s (record s { holder = some i; places = put_place i dialling s.places })
  pass : (i : ℕ) → s.places i ≡ outside → s.world.c.once ≡ true → Step s (at_place i reading s)
  refuse :
      (i : ℕ) (e : Error)
      → s.places i ≡ dialling
      → Step s (
          at_place i leaving (record s {
            world = noted dial_failed (with_error e s.world);
            calls = s.calls ++ dial_failed ∷ [];
          }))
  accept :
      (i h : ℕ)
      → s.places i ≡ dialling
      → Step s (
          at_place i
            (pinging h)
            (record s { world = noted (dial h) s.world; calls = s.calls ++ dial h ∷ [] }))
  miss :
      (i h : ℕ) (e : Error)
      → s.places i ≡ pinging h
      → Step s (
          at_place i (disconnecting h) (record s {
            world = noted (pinged h) (with_error e s.world);
            calls = s.calls ++ pinged h ∷ [];
          }))
  answer :
      (i h : ℕ)
      → s.places i ≡ pinging h
      → Step s (
          at_place i
            (storing h)
            (record s { world = noted (pinged h) s.world; calls = s.calls ++ pinged h ∷ [] }))
  disconnect :
      (i h : ℕ)
      → s.places i ≡ disconnecting h
      → Step s (
          at_place i leaving (record s {
            world = noted (disconnected h) s.world;
            calls = s.calls ++ disconnected h ∷ [];
          }))
  store_client :
      (i h : ℕ)
      → s.places i ≡ storing h
      → Step s (at_place i (naming h) (record s { world = with_client h s.world }))
  store_db :
      (i h : ℕ)
      → s.places i ≡ naming h
      → Step s (at_place i leaving (record s { world = with_db h s.world }))
  leave :
      (i : ℕ)
      → s.places i ≡ leaving
      → Step s (at_place i reading (record s { world = with_once s.world; holder = none }))
  read : (i : ℕ) → s.places i ≡ reading → Step s (at_place i (returned s.world.c.conn_err) s)
  look : (i : ℕ) → s.places i ≡ outside → Step s (at_place i (closing s.world.c.client) s)
  close_open :
      (i h : ℕ)
      → s.places i ≡ closing (some h)
      → Step s (
          at_place i closed
            (record s { shut = s.shut ++ h ∷ []; calls = s.calls ++ disconnected h ∷ [] }))
  close_nil : (i : ℕ) → s.places i ≡ closing none → Step s (at_place i closed s)

pub data Reach (s : Goroutines) : Goroutines → Type 0 where
  here : Reach s s
  next : {t u : Goroutines} → Reach s t → Step t u → Reach s u

-- All goroutines stand before their calls; the driver may have been called before.
abbrev pub started : World → Goroutines
started w = record { world = w; holder = none; places = λ i. outside; shut = []; calls = w.trace }
