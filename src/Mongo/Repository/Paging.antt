-- ===== src/Mongo/Repository/Paging.antt =====
-- The pages of `FindPaging` of mongo/repository.go.
use core_shared.Base.{
  pos, Bool, ℕ, zero, suc, ◌+◌, ◌-◌, ◌*◌, ◌^◌, ◌≤◌, ◌<◌, true, Option, none, some, inl, List, [],
  ◌++◌, take, drop, take-add, ◌⊎◌, ◌≡◌, ◌∙◌, sym, ap, refl, arith,
}
use mathlib.Core.Path.{ap₂}
use mathlib.Core.List.{Perm}
use core_shared.Mongo.Repository.Sorted.{Sorted, Ascending, arrangement_unique}
use core_shared.Apperror.{Error}
use core_shared.Returns.{Result, ok, err}
use core_shared.Mongo.Repository.{
  Driver, FindOptions, at_least_one, offset, when_positive, ensure_filter, drain, reading,
  find_cursor, find_paging,
}

-- `skip` and `limit` of the driver's find.
abbrev pub skipped : {A : Type 0} → Option ℕ → List A → List A
skipped none xs = xs
skipped (some n) xs = drop n xs

abbrev pub limited : {A : Type 0} → Option ℕ → List A → List A
limited none xs = xs
limited (some n) xs = take n xs

module _ {A : Type 0} (n : ℕ) (xs : List A) where
  skipped-when_positive : n < 2 ^ 63 → skipped (when_positive n) xs ≡ drop n xs
  skipped-when_positive h = positive_or n h
    where
      positive_or : (m : ℕ) → m < 2 ^ 63 → skipped (when_positive m) xs ≡ drop m xs
      positive_or zero h = refl
      positive_or (suc m) h = ground arith

  limited-when_positive : 1 ≤ n → n < 2 ^ 63 → limited (when_positive n) xs ≡ take n xs
  limited-when_positive lo h = ground arith

at_least_one-pos : (default n : ℕ) → 1 ≤ n → at_least_one default (pos n) ≡ n
at_least_one-pos default n h = ground arith

abbrev joined : {A : Type 0} → Result (List A) → Result (List A) → Result (List A)
joined (ok xs) (ok ys) = ok (xs ++ ys)
joined (ok xs) (err e) = err e
joined (err e) later = err e

zero_pages : (s : ℕ) → 0 ≡ 0 * s
zero_pages s = omega arith

more_pages : (s n : ℕ) → n * s + s ≡ suc n * s
more_pages s n = omega arith

offset_small : (page size : ℕ) → (page - 1) * size < 2 ^ 63 → offset page size ≡ (page - 1) * size
offset_small page size h = omega arith

module _ {Doc Filter Sort Update Value Model Summary Keys Cursor Oid D : Type 0}
    (db : Driver Doc Filter Sort Update Value Model Summary Keys Cursor Oid D)
    (filter : Option Filter) (sort : Sort) (d : D) where
  -- What MongoDB documents of a find with a sort, where it succeeds: it arranges the documents that
  -- match in the order of the sort, leaves out the first `skip`, and returns at most `limit`. The
  -- arrangement is another one in each find, as far as the order of the sort lets it.
  pub record Found (at_most : Doc → Doc → Bool) (matches : List Doc) (o : FindOptions Sort)
      : Type 0 where
    pub cursor : Cursor
    pub arrangement : List Doc
    pub of_matches : Perm arrangement matches
    pub in_order : Sorted at_most arrangement
    pub found : db.find o (ensure_filter db none filter) d ≡ ok cursor
    pub read : db.all cursor ≡ ok (limited o.limit (skipped o.skip arrangement))

  -- The finds with this filter and this sort succeed.
  abbrev pub FindLaw : (Doc → Doc → Bool) → List Doc → Type 0
  FindLaw at_most matches = (o : FindOptions Sort) → o.sort ≡ some sort → Found at_most matches o

  -- The pages 1 to n, read one after the other and joined.
  pub pages : ℕ → ℕ → Result (List Doc)
  pages s zero = ok []
  pages s (suc n) =
      joined (pages s n) (find_paging db none (pos (suc n)) (pos s) filter (some sort) d)

  module _ (at_most : Doc → Doc → Bool) (ordered : List Doc) (is_set : IsSet Doc)
      (ascending : Ascending at_most ordered) (law : FindLaw at_most ordered) where
    drained :
        (skip limit : ℕ)
        → drain db none (find_cursor db none filter (some sort) skip limit d)
          ≡ ok (limited (when_positive limit) (skipped (when_positive skip) ordered))
    unfolding find_cursor
    drained skip limit =
        let o : FindOptions Sort = record {
          allow_disk_use = true;
          sort = some sort;
          skip = when_positive skip;
          limit = when_positive limit;
        } in
        let f = law o refl in
        let same =
          arrangement_unique is_set at_most ordered f.arrangement ascending f.in_order
            f.of_matches in
        rw f.found (
          rw f.read (
            ap
              (λ (xs : List Doc).
                ok (limited (when_positive limit) (skipped (when_positive skip) xs)))
              same))

    -- Connected, and where the finds with the filter and the sort succeed as MongoDB documents it,
    -- and no two matches are equal in the sort: for `p` and `s` from 1 on, with `s` and (p - 1) * s
    -- below 2 ^ 63, page `p` of size `s` is the `s` documents of the matches, in order, that stand
    -- behind the first (p - 1) * s, or what is left of them.
    pub find_paging_lem :
        (p s : ℕ)
        → 1 ≤ p
        → 1 ≤ s
        → s < 2 ^ 63
        → (p - 1) * s < 2 ^ 63
        → find_paging db none (pos p) (pos s) filter (some sort) d
          ≡ ok (take s (drop ((p - 1) * s) ordered))
    unfolding find_paging
    find_paging_lem p s hp hs small fits =
        drained (offset (at_least_one 1 (pos p)) (at_least_one 20 (pos s)))
          (at_least_one 20 (pos s))
        ∙ ap₂
            (λ (a b : ℕ).
              ok (limited (when_positive b) (skipped (when_positive (offset a b)) ordered)))
            (at_least_one-pos 1 p hp) (at_least_one-pos 20 s hs)
        ∙ ap (λ (o : ℕ). ok (limited (when_positive s) (skipped (when_positive o) ordered)))
            (offset_small p s fits)
        ∙ ap (λ (xs : List Doc). ok (limited (when_positive s) xs))
            (skipped-when_positive ((p - 1) * s) ordered fits)
        ∙ ap ok (limited-when_positive s (drop ((p - 1) * s) ordered) hs small)

    -- Connected, for documents that form a set, where each find with this filter and sort succeeds
    -- and arranges the matches in the order of the sort, as MongoDB documents it, anew each time; if
    -- no two matches are equal in the sort: the first n pages of one size s from 1 on hold together,
    -- for s and n * s below 2 ^ 63, the first n * s documents of the matches in that order, or all
    -- if there are fewer, none twice and none left out.
    pub pages_lem :
        (s n : ℕ) → 1 ≤ s → s < 2 ^ 63 → n * s < 2 ^ 63 → pages s n ≡ ok (take (n * s) ordered)
    unfolding pages
    pages_lem s zero hs small fits = ap (λ (k : ℕ). ok (take k ordered)) (zero_pages s)
    pages_lem s (suc n) hs small fits =
        let before : n * s < 2 ^ 63 = omega arith in
        let here : (suc n - 1) * s ≡ n * s = ap (λ (k : ℕ). k * s) (omega arith) in
        ap₂ joined (pages_lem s n hs small before)
          (find_paging_lem (suc n) s (omega arith) hs small (omega (arith, here)))
        ∙ ap (λ (k : ℕ). ok (take (n * s) ordered ++ take s (drop k ordered))) here
        ∙ ap ok (sym (take-add (n * s) s ordered))
        ∙ ap (λ (k : ℕ). ok (take k ordered)) (more_pages s n)

module _ {Doc Filter Sort Update Value Model Summary Keys Cursor Oid D : Type 0}
    (db : Driver Doc Filter Sort Update Value Model Summary Keys Cursor Oid D) (conn : Option Error)
    (filter : Option Filter) (sort : Option Sort) (d : D) where
  skip_wraps : (bits : ℕ) → (bits ≡ 0) ⊎ (2 ^ 63 ≤ bits) → when_positive bits ≡ none
  skip_wraps bits h = ground arith

  first_offset : (s : ℕ) → offset 1 s ≡ 0
  first_offset s = omega arith

  with_skip : ℕ → Option ℕ → Result (List Doc)
  with_skip s skip = drain db conn (
      reading db conn
        (db.find
          (record {
            allow_disk_use = true;
            sort = sort;
            skip = skip;
            limit = when_positive (at_least_one 20 (pos s));
          })
          (ensure_filter db conn filter))
        d)

  -- For `p` and `s` from 1 on: if (p - 1) * s, taken modulo 2 ^ 64, is zero or negative as a
  -- 64-bit number, then page `p` of size `s` is page 1, whatever the driver does.
  pub find_paging_wraps :
      (p s : ℕ)
      → 1 ≤ p
      → 1 ≤ s
      → (offset p s ≡ 0) ⊎ (2 ^ 63 ≤ offset p s)
      → find_paging db conn (pos p) (pos s) filter sort d
        ≡ find_paging db conn (pos 1) (pos s) filter sort d
  unfolding find_paging with_skip
  find_paging_wraps p s hp hs wraps = ap (with_skip s) (
      ap₂ (λ (a b : ℕ). when_positive (offset a b)) (at_least_one-pos 1 p hp)
        (at_least_one-pos 20 s hs)
      ∙ skip_wraps (offset p s) wraps
      ∙ sym (skip_wraps (offset 1 (at_least_one 20 (pos s))) (inl (first_offset _))))
