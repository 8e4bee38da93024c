-- ===== src/Mongo/Repository.antt =====
-- mongo/repository.go: the operations over the driver's collection, which is a record of what the
-- driver does to a store `D`. `conn` is the error of connecting, if there is one.
pub mod Paging
pub mod Sorted
pub mod Offline
pub mod Connected
use core_shared.Base.{
  ℤ, pos, negsuc, ℕ, ◌-◌, ◌*◌, ◌%◌, ◌^◌, Text, codes, Bool, true, false, Option, none, some, List,
  [], ◌∷◌, ◌==◌, ltb, ◌&&◌, is_empty, if◌then◌else◌,
}
use core_shared.Apperror.{Error, plain}
use core_shared.Returns.{Result, ok, err}

-- `IndexSpec`; the driver's `IndexModel` holds the same.
pub record IndexSpec (Keys : Type 0) : Type 0 where
  pub name : Text
  pub keys : Keys
  pub sparse : Bool
  pub unique : Bool

pub record FindOptions (Sort : Type 0) : Type 0 where
  pub allow_disk_use : Bool
  pub sort : Option Sort
  pub skip : Option ℕ
  pub limit : Option ℕ

-- The decoding of a `SingleResult`: ErrNoDocuments, another error, or a document.
pub data Single (Doc : Type 0) : Type 0 where
  no_documents : Single Doc
  failed : Error → Single Doc
  decoded : Doc → Single Doc

pub record Driver (Doc Filter Sort Update Value Model Summary Keys Cursor Oid D : Type 0)
    : Type 0 where
  pub everything : Filter
  pub by_id : Oid → Filter
  pub by_code : Text → Filter
  pub oid_from_hex : Text → Result Oid
  pub id_of : Doc → Text
  pub code_of : Doc → Text
  pub empty_summary : Summary
  pub find : FindOptions Sort → Filter → D → Result Cursor
  pub all : Cursor → Result (List Doc)
  pub find_one : Option Sort → Filter → D → Single Doc
  pub count : Filter → D → Result ℕ
  pub estimated_count : D → Result ℕ
  pub distinct : Text → Filter → D → Result (Result (List Value))
  pub insert_one : Doc → D → D × Option Error
  pub insert_many : List Doc → D → D × Option Error
  pub update_one : Bool → Filter → Update → D → D × Result ℕ
  pub update_many : Bool → Filter → Update → D → D × Result ℕ
  pub find_one_and_update : Bool → Bool → Filter → Update → D → D × Single Doc
  pub find_one_and_delete : Filter → D → D × Single Doc
  pub replace_one : Filter → Doc → D → D × Option Error
  pub delete_one : Filter → D → D × Result ℕ
  pub delete_many : Filter → D → D × Result ℕ
  pub bulk_write : List Model → D → D × Result Summary
  pub create_index : IndexSpec Keys → D → D × Option Error
  pub create_indexes : List (IndexSpec Keys) → D → D × Option Error

abbrev pub to_result : Option Error → Result (Unit {0})
to_result none = ok tt
to_result (some e) = err e

-- A call that gives a result and an error.
abbrev pub done : {D : Type 0} → D × Option Error → D × Result (Unit {0})
done (d, e) = (d, to_result e)

-- The branches on `ErrNoDocuments` and on any other error.
abbrev pub optional : {Doc : Type 0} → Single Doc → Result (Option Doc)
optional no_documents = ok none
optional (failed e) = err e
optional (decoded doc) = ok (some doc)

abbrev pub flatten : {A : Type 0} → Result (Result A) → Result A
flatten (ok r) = r
flatten (err e) = err e

abbrev forget : {A : Type 0} → Result A → Result (Unit {0})
forget (ok a) = ok tt
forget (err e) = err e

abbrev pub forget_in : {D A : Type 0} → D × Result A → D × Result (Unit {0})
forget_in (d, r) = (d, forget r)

abbrev pub optional_in : {D Doc : Type 0} → D × Single Doc → D × Result (Option Doc)
optional_in (d, r) = (d, optional r)

-- `page` and `size` of `FindPaging` where they are below 1.
abbrev pub at_least_one : ℕ → ℤ → ℕ
at_least_one default (pos n) = if ltb n 1 then default else n
at_least_one default (negsuc n) = default

-- The bits of `int64((page-1)*size)`, and `> 0` on them.
abbrev pub offset : ℕ → ℕ → ℕ
offset page size = (page - 1) * size % 2 ^ 64

abbrev pub when_positive : ℕ → Option ℕ
when_positive bits = if ltb 0 bits && ltb bits (2 ^ 63) then some bits else none

module _ {Doc Filter Sort Update Value Model Summary Keys Cursor Oid D : Type 0}
    (db : Driver Doc Filter Sort Update Value Model Summary Keys Cursor Oid D)
    (conn : Option Error) where
  -- `r.Collection(ctx)` and the return on its error.
  abbrev pub with_collection : {A : Type 0} → (D → D × Result A) → D → D × Result A
  with_collection act d = elim conn [ none ↦ act d | some e ↦ (d, err e) ]

  -- The same for calls that only read.
  abbrev pub reading : {A : Type 0} → (D → Result A) → D → Result A
  reading act d = elim conn [ none ↦ act d | some e ↦ err e ]

  abbrev pub ensure_filter : Option Filter → Filter
  ensure_filter none = db.everything
  ensure_filter (some f) = f

  pub find_cursor : Option Filter → Option Sort → ℕ → ℕ → D → Result Cursor
  find_cursor filter sort skip limit = reading (
      db.find
        (record {
          allow_disk_use = true;
          sort = sort;
          skip = when_positive skip;
          limit = when_positive limit;
        })
        (ensure_filter filter))

  abbrev drain : Result Cursor → Result (List Doc)
  drain (ok cursor) = db.all cursor
  drain (err e) = err e

  unfoldable pub find : Option Filter → Option Sort → D → Result (List Doc)
  unfolding find_cursor
  find filter sort d = drain (find_cursor filter sort 0 0 d)

  unfoldable pub find_paging : ℤ → ℤ → Option Filter → Option Sort → D → Result (List Doc)
  unfolding find_cursor
  find_paging page size filter sort d =
      let p = at_least_one 1 page in
      let s = at_least_one 20 size in drain (find_cursor filter sort (offset p s) s d)

  unfoldable pub find_one : Option Filter → Option Sort → D → Result (Option Doc)
  find_one filter sort = reading (λ d. optional (db.find_one sort (ensure_filter filter) d))

  unfoldable pub count : Option Filter → D → Result ℕ
  count filter = reading (db.count (ensure_filter filter))

  unfoldable pub estimated_count : D → Result ℕ
  estimated_count = reading db.estimated_count

  unfoldable pub distinct : Text → Option Filter → D → Result (List Value)
  distinct field filter = reading (λ d. flatten (db.distinct field (ensure_filter filter) d))

  unfoldable pub insert_one : Doc → D → D × Result (Unit {0})
  insert_one doc = with_collection (λ d. done (db.insert_one doc d))

  unfoldable pub insert_many : List Doc → D → D × Result (Unit {0})
  insert_many [] d = (d, ok tt)
  insert_many (doc ∷ docs) d = with_collection (λ d. done (db.insert_many (doc ∷ docs) d)) d

  unfoldable pub update_one : Option Filter → Update → D → D × Result ℕ
  update_one filter update = with_collection (db.update_one false (ensure_filter filter) update)

  unfoldable pub upsert_one : Option Filter → Update → D → D × Result (Unit {0})
  upsert_one filter update =
      with_collection (λ d. forget_in (db.update_one true (ensure_filter filter) update d))

  unfoldable pub update_many : Option Filter → Update → D → D × Result ℕ
  update_many filter update = with_collection (db.update_many false (ensure_filter filter) update)

  unfoldable pub upsert_many : Option Filter → Update → D → D × Result (Unit {0})
  upsert_many filter update =
      with_collection (λ d. forget_in (db.update_many true (ensure_filter filter) update d))

  unfoldable pub find_one_and_update : Option Filter → Update → Bool → D → D × Result (Option Doc)
  find_one_and_update filter update return_after =
      with_collection (λ d.
        optional_in (db.find_one_and_update return_after false (ensure_filter filter) update d))

  unfoldable pub find_one_and_upsert : Option Filter → Update → Bool → D → D × Result (Option Doc)
  find_one_and_upsert filter update return_after =
      with_collection (λ d.
        optional_in (db.find_one_and_update return_after true (ensure_filter filter) update d))

  unfoldable pub find_one_and_delete : Option Filter → D → D × Result (Option Doc)
  find_one_and_delete filter =
      with_collection (λ d. optional_in (db.find_one_and_delete (ensure_filter filter) d))

  abbrev replace_at : Result Oid → Doc → D → D × Result (Unit {0})
  replace_at (err e) doc d = (d, err e)
  replace_at (ok oid) doc d = with_collection (λ d. done (db.replace_one (db.by_id oid) doc d)) d

  unfoldable pub replace_by_id : Doc → D → D × Result (Unit {0})
  replace_by_id doc d =
      if is_empty (db.id_of doc)
      then (d, err (plain (codes "mongo: document id is empty")))
      else replace_at (db.oid_from_hex (db.id_of doc)) doc d

  unfoldable pub replace_by_code : Doc → D → D × Result (Unit {0})
  replace_by_code doc d =
      if is_empty (db.code_of doc)
      then (d, err (plain (codes "mongo: document code is empty")))
      else with_collection (λ d. done (db.replace_one (db.by_code (db.code_of doc)) doc d)) d

  unfoldable pub delete_one : Option Filter → D → D × Result ℕ
  delete_one filter = with_collection (db.delete_one (ensure_filter filter))

  unfoldable pub delete_many : Option Filter → D → D × Result ℕ
  delete_many filter = with_collection (db.delete_many (ensure_filter filter))

  unfoldable pub bulk_write : List Model → D → D × Result Summary
  bulk_write [] d = (d, ok db.empty_summary)
  bulk_write (m ∷ models) d = with_collection (db.bulk_write (m ∷ models)) d

  unfoldable pub create_index : IndexSpec Keys → D → D × Result (Unit {0})
  create_index spec = with_collection (λ d. done (db.create_index spec d))

  unfoldable pub create_indexes : List (IndexSpec Keys) → D → D × Result (Unit {0})
  create_indexes [] d = (d, ok tt)
  create_indexes (spec ∷ specs) d =
      with_collection (λ d. done (db.create_indexes (spec ∷ specs) d)) d
