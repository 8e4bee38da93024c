-- ===== src/Mongo/Repository/Connected.antt =====
-- The repository of mongo/repository.go on a client of mongo/client.go: its constructors, and calls
-- in a row, each of which asks the client for the collection.
pub mod Settling
use core_shared.Base.{
  Text, Bool, true, false, not, ◌&&◌, Option, none, some, inl, inr, List, [], ◌∷◌, is_empty, ◌≡◌,
  ◌∙◌, ap, refl, sym, map, Bool-cases, if◌then◌else◌, arith, ℕ,
}
use mathlib.Core.Path.{subst}
use core_shared.Apperror.{Error}
use core_shared.Returns.{Result}
use core_shared.Mongo.Collection.{Unicode, resolve_collection_name}
use core_shared.Mongo.Client
use core_shared.Mongo.Client.{
  Options, World, Outcome, new_client, connected, connect, database, collection, collection_of,
  after,
}
use core_shared.Mongo.Client.Settled.{
  IsSettled, failed, live, settled, connected-once, IsSettled-once, connected-IsSettled,
}
use core_shared.Mongo.Client.Once.{new_client-IsSound}
use core_shared.Mongo.Repository.{
  Driver, replace_at, insert_many, replace_by_id, replace_by_code, bulk_write, create_indexes,
}
use core_shared.Mongo.Repository.Offline.{
  Call, c_insert_many, c_replace_by_id, c_replace_by_code, c_bulk_write, c_create_indexes, perform,
  offline_error,
}

-- `Repository`; the client is the one of the world that a call is made in.
pub record Repository : Type 0 where
  pub collection_name : Text

-- By the two names that the model's methods give, and the name of its type.
unfoldable pub new_repository : Unicode → Option Text → Option Text → Option Text → Repository
unfolding resolve_collection_name
new_repository u by_pointer by_value type_name = record {
  collection_name = resolve_collection_name u by_pointer by_value type_name;
}

unfoldable pub new_repository_with_name : Text → Repository
new_repository_with_name name = record { collection_name = name }

unfoldable pub repository_collection :
    Repository → Client.Driver → World → World × Outcome (ℕ × Text × Text)
unfolding collection
repository_collection r d w = collection d w r.collection_name

abbrev pub is_ok : {A : Type 0} → Result A → Bool
is_ok (Result.ok a) = true
is_ok (Result.err e) = false

module _ {Doc Filter Sort Update Value Model Summary Keys Cursor Oid D : Type 0}
    (db : Driver Doc Filter Sort Update Value Model Summary Keys Cursor Oid D) where
  -- Whether a call comes to `r.Collection(ctx)`, or returns before.
  unfoldable pub asks : Call db → Bool
  asks (c_insert_many []) = false
  asks (c_bulk_write []) = false
  asks (c_create_indexes []) = false
  asks (c_replace_by_id doc) =
      not (is_empty (db.id_of doc)) && is_ok (db.oid_from_hex (db.id_of doc))
  asks (c_replace_by_code doc) = not (is_empty (db.code_of doc))
  asks call = true

  abbrev pub finished : World → D × Option Error → (World × D) × Outcome (Option Error)
  finished w (s, e) = ((w, s), Outcome.ok e)

  -- The rest of a call; a nil pointer is a panic.
  abbrev pub answered :
      Call db → World × Outcome (ℕ × Text × Text) → D → (World × D) × Outcome (Option Error)
  answered call (w, Outcome.ok c) s = finished w (perform db none call s)
  answered call (w, Outcome.err e) s = finished w (perform db (some e) call s)
  answered call (w, Outcome.fault) s = ((w, s), Outcome.fault)

  unfoldable pub call_on :
      Repository → Call db → Client.Driver → World × D → (World × D) × Outcome (Option Error)
  unfolding asks repository_collection
  call_on r call d (w, s) =
      if asks call
      then answered call (repository_collection r d w) s
      else finished w (perform db none call s)

  -- Calls in a row, each with what the driver would answer to its client.
  unfoldable pub calls_on :
      Repository
      → List (Call db × Client.Driver)
      → World × D
      → (World × D) × List (Outcome (Option Error))
  unfolding call_on
  calls_on r [] p = (p, [])
  calls_on r ((call, d) ∷ calls) p =
      let (p', answer) = call_on r call d p in
      let (p'', answers) = calls_on r calls p' in (p'', answer ∷ answers)

  -- The same calls where one connection has been made, or one error has come of it.
  unfoldable pub perform_all :
      Option Error → List (Call db × Client.Driver) → D → D × List (Outcome (Option Error))
  perform_all conn [] s = (s, [])
  perform_all conn ((call, d) ∷ calls) s =
      let (s', e) = perform db conn call s in
      let (s'', es) = perform_all conn calls s' in (s'', Outcome.ok e ∷ es)
