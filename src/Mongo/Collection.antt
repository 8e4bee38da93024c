-- ===== src/Mongo/Collection.antt =====
-- mongo/collection.go: the name of a model's collection. Names are lists of runes.
pub mod Laws
use core_shared.Base.{
  ℕ, ◌+◌, Text, Bool, true, false, Option, none, some, [], ◌∷◌, ◌++◌, ltb, is_upper_ascii,
  lower_ascii, if◌then◌else◌,
}

-- The tables of package `unicode` beyond ASCII, which the standard library carries as data.
pub record Unicode : Type 0 where
  pub wide_upper : ℕ → Bool
  pub wide_lower : ℕ → ℕ

module _ (u : Unicode) where
  -- `unicode.IsUpper` and `unicode.ToLower`
  abbrev pub is_upper : ℕ → Bool
  is_upper c = if ltb c 128 then is_upper_ascii c else u.wide_upper c

  abbrev pub to_lower : ℕ → ℕ
  to_lower c = if ltb c 128 then lower_ascii c else u.wide_lower c

  -- The loop of `toSnakeCase`; `first` is `i == 0`.
  pub snake_from : Bool → Text → Text
  snake_from first [] = []
  snake_from first (r ∷ rest) =
      if is_upper r
      then ((if first then [] else b'_' ∷ []) ++ to_lower r ∷ snake_from false rest)
      else r ∷ snake_from false rest

  unfoldable pub to_snake_case : Text → Text
  unfolding snake_from
  to_snake_case input = snake_from true input

  -- What `ResolveCollectionName` learns of the type: the name that the pointer's or the value's
  -- method `CollectionName` returns, where there is one, and the name of the type behind its
  -- pointers, where there is a type.
  abbrev named_or : Option Text → Text → Text
  named_or none otherwise = otherwise
  named_or (some []) otherwise = otherwise
  named_or (some (c ∷ name)) otherwise = c ∷ name

  abbrev derived : Option Text → Text
  derived none = []
  derived (some type_name) = to_snake_case type_name

  unfoldable pub resolve_collection_name : Option Text → Option Text → Option Text → Text
  unfolding to_snake_case
  resolve_collection_name by_pointer by_value type_name =
      named_or by_pointer (named_or by_value (derived type_name))
