-- ===== src/Tests/Store.antt =====
-- mongo/repository.go at concrete inputs, over a store of numbers whose cursor holds the numbers
-- that are left to read.
use core_shared.Base.{
  pos, ℕ, leb, ◌^◌, ◌+◌, codes, none, some, inl, List, [], ◌∷◌, ◌≡◌, refl, arith,
}
use core_shared.Apperror.{plain}
use core_shared.Returns.{ok}
use core_shared.Mongo.Repository.{Driver, Single, no_documents, decoded, find_paging}
use core_shared.Mongo.Repository.Paging.{
  limited, skipped, FindLaw, pages, pages_lem, find_paging_wraps,
}
use core_shared.Mongo.Repository.Sorted.{Sorted, Ascending}
use mathlib.Core.List.Perm
use core_shared.Mongo.Repository.Offline.{c_insert_one, offline_error, perform, perform-offline}

abbrev Numbers : Type 0
Numbers = List ℕ

abbrev Nothing : Type 0
Nothing = Unit {0}

abbrev first : Numbers → Single ℕ
first [] = no_documents
first (x ∷ xs) = decoded x

abbrev numbers :
    Driver ℕ Nothing Nothing Nothing Nothing Nothing Nothing Nothing Numbers Nothing Numbers
numbers = record {
  everything = tt;
  by_id = λ _. tt;
  by_code = λ _. tt;
  oid_from_hex = λ _. ok tt;
  id_of = λ _. codes "1";
  code_of = λ _. codes "";
  empty_summary = tt;
  find = λ o f d. ok (limited o.limit (skipped o.skip d));
  all = λ c. ok c;
  find_one = λ _ _ d. first d;
  count = λ _ _. ok 0;
  estimated_count = λ _. ok 0;
  distinct = λ _ _ _. ok (ok []);
  insert_one = λ x d. (x ∷ d, none);
  insert_many = λ xs d. (xs, none);
  update_one = λ _ _ _ d. (d, ok 0);
  update_many = λ _ _ _ d. (d, ok 0);
  find_one_and_update = λ _ _ _ _ d. (d, first d);
  find_one_and_delete = λ _ d. (d, first d);
  replace_one = λ _ _ d. (d, none);
  delete_one = λ _ d. (d, ok 0);
  delete_many = λ _ d. ([], ok 0);
  bulk_write = λ _ d. (d, ok tt);
  create_index = λ _ d. (d, none);
  create_indexes = λ _ d. (d, none);
}

abbrev five : Numbers
five = 10 ∷ 11 ∷ 12 ∷ 13 ∷ 14 ∷ []

five-Sorted : Sorted leb five
five-Sorted = ground arith

five-Ascending : Ascending leb five
five-Ascending = ground arith

abbrev numbers_law : FindLaw numbers none tt five leb five
numbers_law o e = record {
  cursor = limited o.limit (skipped o.skip five);
  arrangement = five;
  of_matches = Perm.refl five;
  in_order = five-Sorted;
  found = refl;
  read = refl;
}

pages_lem_example : pages numbers none tt five 2 2 ≡ ok (10 ∷ 11 ∷ 12 ∷ 13 ∷ [])
pages_lem_example =
    pages_lem numbers none tt five leb five (hlevel) five-Ascending numbers_law 2 2 (omega arith)
      (omega arith) (omega arith)

find_paging_wraps_example :
    find_paging numbers none (pos (2 ^ 63 + 1)) (pos 2) none none five
    ≡ find_paging numbers none (pos 1) (pos 2) none none five
find_paging_wraps_example =
    find_paging_wraps numbers none none none five (2 ^ 63 + 1) 2 (omega arith) (omega arith)
      (inl refl)

perform-offline_example :
    perform numbers (some (plain (codes "down"))) (c_insert_one 9) five
    ≡ (five, some (plain (codes "down")))
unfolding offline_error
perform-offline_example = perform-offline numbers (plain (codes "down")) (c_insert_one 9) five
