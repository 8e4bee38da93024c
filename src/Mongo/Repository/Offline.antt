-- ===== src/Mongo/Repository/Offline.antt =====
-- The operations of mongo/repository.go where there is no connection.
use core_shared.Base.{
  ℤ, Text, codes, Bool, Option, none, some, inl, inr, List, [], ◌∷◌, is_empty, ◌≡◌, refl,
  Bool-cases, if◌then◌else◌,
}
use core_shared.Apperror.{Error, plain}
use core_shared.Returns.{Result, ok, err}
use core_shared.Mongo.Repository.{
  Driver, IndexSpec, replace_at, find, find_paging, find_one, count, estimated_count, distinct,
  insert_one, insert_many, update_one, upsert_one, update_many, upsert_many, find_one_and_update,
  find_one_and_upsert, find_one_and_delete, replace_by_id, replace_by_code, delete_one, delete_many,
  bulk_write, create_index, create_indexes,
}

module _ {Doc Filter Sort Update Value Model Summary Keys Cursor Oid D : Type 0}
    (db : Driver Doc Filter Sort Update Value Model Summary Keys Cursor Oid D) where
  -- One call of the repository.
  pub data Call : Type 0 where
    c_find : Option Filter → Option Sort → Call
    c_find_paging : ℤ → ℤ → Option Filter → Option Sort → Call
    c_find_one : Option Filter → Option Sort → Call
    c_count : Option Filter → Call
    c_estimated_count : Call
    c_distinct : Text → Option Filter → Call
    c_insert_one : Doc → Call
    c_insert_many : List Doc → Call
    c_update_one c_upsert_one c_update_many c_upsert_many : Option Filter → Update → Call
    c_find_one_and_update c_find_one_and_upsert : Option Filter → Update → Bool → Call
    c_find_one_and_delete : Option Filter → Call
    c_replace_by_id c_replace_by_code : Doc → Call
    c_delete_one c_delete_many : Option Filter → Call
    c_bulk_write : List Model → Call
    c_create_index : IndexSpec Keys → Call
    c_create_indexes : List (IndexSpec Keys) → Call

  -- What came of a call: no error, or an error.
  abbrev forget : {A : Type 0} → Result A → Option Error
  forget (ok a) = none
  forget (err e) = some e

  abbrev pub changed : {A : Type 0} → D × Result A → D × Option Error
  changed (d, r) = (d, forget r)

  -- The store after a call, and its error.
  unfoldable pub perform : Option Error → Call → D → D × Option Error
  perform conn (c_find f s) d = (d, forget (find db conn f s d))
  perform conn (c_find_paging p n f s) d = (d, forget (find_paging db conn p n f s d))
  perform conn (c_find_one f s) d = (d, forget (find_one db conn f s d))
  perform conn (c_count f) d = (d, forget (count db conn f d))
  perform conn c_estimated_count d = (d, forget (estimated_count db conn d))
  perform conn (c_distinct field f) d = (d, forget (distinct db conn field f d))
  perform conn (c_insert_one doc) d = changed (insert_one db conn doc d)
  perform conn (c_insert_many docs) d = changed (insert_many db conn docs d)
  perform conn (c_update_one f u) d = changed (update_one db conn f u d)
  perform conn (c_upsert_one f u) d = changed (upsert_one db conn f u d)
  perform conn (c_update_many f u) d = changed (update_many db conn f u d)
  perform conn (c_upsert_many f u) d = changed (upsert_many db conn f u d)
  perform conn (c_find_one_and_update f u a) d = changed (find_one_and_update db conn f u a d)
  perform conn (c_find_one_and_upsert f u a) d = changed (find_one_and_upsert db conn f u a d)
  perform conn (c_find_one_and_delete f) d = changed (find_one_and_delete db conn f d)
  perform conn (c_replace_by_id doc) d = changed (replace_by_id db conn doc d)
  perform conn (c_replace_by_code doc) d = changed (replace_by_code db conn doc d)
  perform conn (c_delete_one f) d = changed (delete_one db conn f d)
  perform conn (c_delete_many f) d = changed (delete_many db conn f d)
  perform conn (c_bulk_write ms) d = changed (bulk_write db conn ms d)
  perform conn (c_create_index spec) d = changed (create_index db conn spec d)
  perform conn (c_create_indexes specs) d = changed (create_indexes db conn specs d)

  abbrev id_error : Result Oid → Error → Error
  id_error (ok oid) e = e
  id_error (err bad) e = bad

  -- The error that a call reports when connecting failed with `e`: an empty batch reports none,
  -- and a document to replace whose id or code is empty, or whose id is no object id, reports that.
  unfoldable pub offline_error : Error → Call → Option Error
  offline_error e (c_insert_many []) = none
  offline_error e (c_bulk_write []) = none
  offline_error e (c_create_indexes []) = none
  offline_error e (c_replace_by_id doc) = some (
      if is_empty (db.id_of doc)
      then plain (codes "mongo: document id is empty")
      else id_error (db.oid_from_hex (db.id_of doc)) e)
  offline_error e (c_replace_by_code doc) =
      some (if is_empty (db.code_of doc) then plain (codes "mongo: document code is empty") else e)
  offline_error e call = some e

  replace_at-offline :
      (id : Result Oid) (e : Error) (doc : Doc) (d : D)
      → changed (replace_at db (some e) id doc d) ≡ (d, some (id_error id e))
  replace_at-offline (ok oid) e doc d = refl
  replace_at-offline (err bad) e doc d = refl

  -- Where connecting failed with `e`, no call reaches the store, and each reports `e`, but for
  -- the three empty batches, which report no error, and the two replacements of a document whose
  -- id or code is refused before the connection is asked for.
  pub perform-offline :
      (e : Error) (call : Call) (d : D) → perform (some e) call d ≡ (d, offline_error e call)
  unfolding perform offline_error find find_paging find_one count estimated_count distinct
      insert_one insert_many update_one upsert_one update_many upsert_many find_one_and_update
      find_one_and_upsert find_one_and_delete replace_by_id replace_by_code delete_one delete_many
      bulk_write create_index create_indexes
  perform-offline e (c_insert_many []) d = refl
  perform-offline e (c_insert_many (x ∷ xs)) d = refl
  perform-offline e (c_bulk_write []) d = refl
  perform-offline e (c_bulk_write (x ∷ xs)) d = refl
  perform-offline e (c_create_indexes []) d = refl
  perform-offline e (c_create_indexes (x ∷ xs)) d = refl
  perform-offline e (c_replace_by_id doc) d = elim (Bool-cases (is_empty (db.id_of doc))) [
    | inl empty ↦ rw empty
    | inr given ↦ rw given (replace_at-offline (db.oid_from_hex (db.id_of doc)) e doc d)
  ]
  perform-offline e (c_replace_by_code doc) d = elim (Bool-cases (is_empty (db.code_of doc))) [
    | inl empty ↦ rw empty
    | inr given ↦ rw given
  ]
  perform-offline e call d = refl
