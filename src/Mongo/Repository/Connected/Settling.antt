-- ===== src/Mongo/Repository/Connected/Settling.antt =====
-- The first connection of a client of mongo/client.go decides what all later calls of a repository
-- of mongo/repository.go do.
use core_shared.Base.{
  Text, false, Option, none, some, inl, inr, List, [], ◌∷◌, is_empty, ◌≡◌, ◌∙◌, ap, refl, sym,
  Bool-cases, arith,
}
use mathlib.Core.Path.{subst}
use core_shared.Apperror.{Error}
use core_shared.Returns.{Result}
use core_shared.Mongo.Client
use core_shared.Mongo.Client.{
  Options, World, Outcome, new_client, connected, connect, database, collection, collection_of,
  after,
}
use core_shared.Mongo.Client.Settled.{
  IsSettled, failed, live, connected-once, IsSettled-once, connected-IsSettled,
}
use core_shared.Mongo.Client.Once.{new_client-IsSound}
use core_shared.Mongo.Repository.{
  Driver, replace_at, insert_many, replace_by_id, replace_by_code, bulk_write, create_indexes,
}
use core_shared.Mongo.Repository.Offline.{
  Call, c_insert_many, c_replace_by_id, c_replace_by_code, c_bulk_write, c_create_indexes, perform,
  changed, offline_error, perform-offline,
}
use core_shared.Mongo.Repository.Connected.{
  Repository, repository_collection, is_ok, asks, finished, answered, call_on, calls_on,
  perform_all,
}

module _ {Doc Filter Sort Update Value Model Summary Keys Cursor Oid D : Type 0}
    (db : Driver Doc Filter Sort Update Value Model Summary Keys Cursor Oid D) where
  replace_at-is_ok :
      (id : Result Oid) (conn : Option Error) (doc : Doc) (s : D)
      → is_ok id ≡ false
      → replace_at db none id doc s ≡ replace_at db conn id doc s
  replace_at-is_ok (Result.err e) conn doc s h = refl
  replace_at-is_ok (Result.ok oid) conn doc s h = ground arith

  -- A call that asks for no collection does not depend on the connection.
  perform-asks :
      (call : Call db) (conn : Option Error) (s : D)
      → asks db call ≡ false
      → perform db none call s ≡ perform db conn call s
  unfolding asks perform insert_many bulk_write create_indexes replace_by_id replace_by_code
  perform-asks (c_insert_many []) conn s h = refl
  perform-asks (c_bulk_write []) conn s h = refl
  perform-asks (c_create_indexes []) conn s h = refl
  perform-asks (c_replace_by_id doc) conn s h = elim (Bool-cases (is_empty (db.id_of doc))) [
    | inl empty ↦ rw empty
    | inr given ↦ rw given (
        ap (changed db)
          (replace_at-is_ok (db.oid_from_hex (db.id_of doc)) conn doc s (ground (arith, given, h))))
  ]
  perform-asks (c_replace_by_code doc) conn s h = elim (Bool-cases (is_empty (db.code_of doc))) [
    | inl empty ↦ rw empty
    | inr given ↦ ground (arith, given, h)
  ]
  perform-asks call conn s h = ground arith

  answered-IsSettled :
      (name : Text) (call : Call db) (w : World) (s : D)
      → IsSettled w
      → answered db call (w, collection_of (after w.c.conn_err (Outcome.ok w.c.db)) name) s
        ≡ finished db w (perform db w.c.conn_err call s)
  answered-IsSettled name call w s (failed e o x n k) =
      subst
        (λ c.
          answered db call (w, collection_of (after c (Outcome.ok w.c.db)) name) s
          ≡ finished db w (perform db c call s))
        (sym x) refl
  answered-IsSettled name call w s (live h o x n b k) =
      subst
        (λ c.
          answered db call (w, collection_of (after c (Outcome.ok w.c.db)) name) s
          ≡ finished db w (perform db c call s))
        (sym x) (ap (λ p. answered db call (w, collection_of (Outcome.ok p) name) s) b)

  repository_collection-once :
      (r : Repository) (d : Client.Driver) (w : World)
      → IsSettled w
      → repository_collection r d w
        ≡ (w, collection_of (after w.c.conn_err (Outcome.ok w.c.db)) r.collection_name)
  unfolding repository_collection collection database connect
  repository_collection-once r d w k =
      ap
        (λ (v : World).
          (v, collection_of (after v.c.conn_err (Outcome.ok v.c.db)) r.collection_name))
        (connected-once d w (IsSettled-once k))

  call_on-IsSettled :
      (r : Repository) (call : Call db) (d : Client.Driver) (w : World) (s : D)
      → IsSettled w
      → call_on db r call d (w, s) ≡ finished db w (perform db w.c.conn_err call s)
  unfolding call_on
  call_on-IsSettled r call d w s k = elim (Bool-cases (asks db call)) [
    | inl needed ↦ rw needed (
        ap (λ p. answered db call p s) (repository_collection-once r d w k)
        ∙ answered-IsSettled r.collection_name call w s k)
    | inr free ↦ rw free (ap (finished db w) (perform-asks call w.c.conn_err s free))
  ]

  calls_on-IsSettled :
      (r : Repository) (calls : List (Call db × Client.Driver)) (w : World) (s : D)
      → IsSettled w
      → calls_on db r calls (w, s)
        ≡ ((w, (perform_all db w.c.conn_err calls s).0), (perform_all db w.c.conn_err calls s).1)
  unfolding calls_on perform_all
  calls_on-IsSettled r [] w s k = refl
  calls_on-IsSettled r ((call, d) ∷ calls) w s k =
      ap (λ q. ((calls_on db r calls q.0).0, q.1 ∷ (calls_on db r calls q.0).1))
        (call_on-IsSettled r call d w s k)
      ∙ ap (λ q. (q.0, Outcome.ok (perform db w.c.conn_err call s).1 ∷ q.1))
          (calls_on-IsSettled r calls w (perform db w.c.conn_err call s).0 k)

  -- On a client that `NewClient` has built and whose `Connect` has returned, any calls of a
  -- repository leave the client and its trace of the driver as they are, whatever the driver would
  -- answer by then, use no nil pointer, and do in the store what they do, one behind the other,
  -- with the error or the success of that first `Connect`.
  pub calls_on-perform_all :
      (opts : Options) (c : Client.Client) (first : Client.Driver) (r : Repository)
      (calls : List (Call db × Client.Driver)) (s : D)
      → new_client opts ≡ Outcome.ok c
      → (let (w, e) = connect first (record { c = c; trace = [] }) in
          calls_on db r calls (w, s)
          ≡ ((w, (perform_all db e calls s).0), (perform_all db e calls s).1))
  unfolding connect
  calls_on-perform_all opts c first r calls s made =
      calls_on-IsSettled r calls (connected first (record { c = c; trace = [] })) s
        (connected-IsSettled first (record { c = c; trace = [] }) (new_client-IsSound opts c made))

  -- What the calls report where there is no connection.
  abbrev pub reported_offline :
      Error → List (Call db × Client.Driver) → List (Outcome (Option Error))
  reported_offline e [] = []
  reported_offline e ((call, d) ∷ calls) =
      Outcome.ok (offline_error db e call) ∷ reported_offline e calls

  perform_all-offline :
      (e : Error) (calls : List (Call db × Client.Driver)) (s : D)
      → perform_all db (some e) calls s ≡ (s, reported_offline e calls)
  unfolding perform_all
  perform_all-offline e [] s = refl
  perform_all-offline e ((call, d) ∷ calls) s =
      ap
        (λ q. (
          (perform_all db (some e) calls q.0).0,
          Outcome.ok q.1 ∷ (perform_all db (some e) calls q.0).1,
        ))
        (perform-offline db e call s)
      ∙ ap (λ q. (q.0, Outcome.ok (offline_error db e call) ∷ q.1)) (perform_all-offline e calls s)

  -- Where the first `Connect` of a client that `NewClient` has built fails, no later call of a
  -- repository ever reaches the store or dials the driver again, however reachable it is by then:
  -- each reports that first error, but for the calls that end before they ask for the collection.
  pub calls_on-reported_offline :
      (opts : Options) (c : Client.Client) (first : Client.Driver) (r : Repository)
      (calls : List (Call db × Client.Driver)) (s : D) (e : Error)
      → new_client opts ≡ Outcome.ok c
      → (connect first (record { c = c; trace = [] })).1 ≡ some e
      → calls_on db r calls ((connect first (record { c = c; trace = [] })).0, s)
        ≡ (((connect first (record { c = c; trace = [] })).0, s), reported_offline e calls)
  unfolding connect
  calls_on-reported_offline opts c first r calls s e made x =
      calls_on-perform_all opts c first r calls s made
      ∙ ap (λ q. (((connect first (record { c = c; trace = [] })).0, q.0), q.1))
          (ap (λ x'. perform_all db x' calls s) x ∙ perform_all-offline e calls s)
