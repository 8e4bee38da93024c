-- ===== src/Mongo/Collection/Laws.antt =====
-- Derived collection names of mongo/collection.go: snake case, and one name for one type.
use core_shared.Base.{
  ◌<◌, Text, Bool, true, false, none, some, [], ◌∷◌, ◌==◌, is_upper_ascii, upper_ascii,
  if◌then◌else◌, All, ◌≡◌, ◌≢◌, ap, refl, sym, ◌∙◌, arith,
}
use core_shared.Mongo.Collection.{Unicode, snake_from, to_snake_case, resolve_collection_name}

-- Read back: an underscore goes, and the rune behind it is raised, as the first rune is.
pub raise : Bool → Text → Text
raise up [] = []
raise up (c ∷ s) =
    let later = raise true s in
    let plain = (if up then upper_ascii c else c) ∷ raise false s in
    if c == b'_' then later else plain

pub type_name_of : Text → Text
unfolding raise
type_name_of s = raise true s

-- ASCII runes other than the underscore.
abbrev pub IsPlain : Text → Type 0
IsPlain = All (λ c. (c < 128) × (c ≢ b'_'))

-- The name of an exported type begins with an upper-case letter.
abbrev pub IsExported : Text → Type 0
IsExported [] = ⊥
IsExported (c ∷ s) = is_upper_ascii c ≡ true

module _ (u : Unicode) where
  raise-snake_from : (s : Text) → IsPlain s → raise false (snake_from u false s) ≡ s
  unfolding raise snake_from
  raise-snake_from [] h = refl
  raise-snake_from (c ∷ s) ((small, plain), h) = ground (arith, raise-snake_from s h)

  -- From the collection name that is derived for an exported type with an ASCII name without
  -- underscores, the type's name can be read back.
  pub type_name_of-to_snake_case :
      (s : Text) → IsPlain s → IsExported s → type_name_of (to_snake_case u s) ≡ s
  unfolding type_name_of to_snake_case
  type_name_of-to_snake_case [] h x = absurd x
  type_name_of-to_snake_case (c ∷ s) ((small, plain), h) x = ground (arith, raise-snake_from s h)

  snake_from-lower :
      (first : Bool) (s : Text)
      → All (λ c. c < 128) s
      → All (λ c. is_upper_ascii c ≡ false) (snake_from u first s)
  unfolding snake_from
  snake_from-lower first [] h = tt
  snake_from-lower first (c ∷ s) (small, h) = ground (arith, snake_from-lower false s h)

  -- No upper-case letter is left in the derived name of an ASCII name.
  pub to_snake_case-lower :
      (s : Text) → All (λ c. c < 128) s → All (λ c. is_upper_ascii c ≡ false) (to_snake_case u s)
  unfolding to_snake_case
  to_snake_case-lower s = snake_from-lower true s

  -- Two exported types with plain names, neither of which names its collection, share a
  -- collection only if they have the same name.
  pub resolve_collection_name_injective :
      (s t : Text)
      → IsPlain s
      → IsExported s
      → IsPlain t
      → IsExported t
      → resolve_collection_name u none none (some s) ≡ resolve_collection_name u none none (some t)
      → s ≡ t
  unfolding resolve_collection_name
  resolve_collection_name_injective s t hs xs ht xt e =
      sym (type_name_of-to_snake_case s hs xs)
      ∙ ap type_name_of e
      ∙ type_name_of-to_snake_case t ht xt
