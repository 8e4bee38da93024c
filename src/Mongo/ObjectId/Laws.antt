-- ===== src/Mongo/ObjectId/Laws.antt =====
-- What mongo/objectid.go reads of what it wrote, and when an id counts as empty.
use core_shared.Base.{
  ℕ, Text, Bool, true, false, not, ◌&&◌, ◌||◌, [], ◌∷◌, is_empty, map, lower_ascii, ◌≡◌, ◌∙◌, ap,
  sym, refl, arith,
}
use core_shared.Returns.{Result, ok, err}
use core_shared.Mongo.ObjectId.{
  Hex, nil_or, is_nil_ok, is_zero, to_oid, id_or_text, marshal_bson_value, unmarshal_bson_value,
  to_object_id, is_object_id_empty,
}

-- What the driver documents: an id prints as the lower-case form of the text that it was read
-- from, and is read from what it prints; the nil id is nil.
pub record HexLaw {Oid : Type 0} (hex : Hex Oid) : Type 0 where
  pub printed : (s : Text) (o : Oid) → hex.from_hex s ≡ ok o → hex.to_hex o ≡ map lower_ascii s
  pub read_back : (s : Text) (o : Oid) → hex.from_hex s ≡ ok o → hex.from_hex (hex.to_hex o) ≡ ok o
  pub nil_is_nil : hex.is_nil hex.nil_id ≡ true

module _ {Oid : Type 0} (hex : Hex Oid) where
  abbrev pub lowered : Text → Result Oid → Text
  lowered s (ok o) = map lower_ascii s
  lowered s (err e) = s

  -- A hexadecimal id in lower case, any other text as it is.
  abbrev pub canonical : Text → Text
  canonical [] = []
  canonical (c ∷ s) = lowered (c ∷ s) (hex.from_hex (c ∷ s))

  abbrev pub is_malformed_id : Result Oid → Bool
  is_malformed_id (ok o) = false
  is_malformed_id (err e) = true

  abbrev pub is_malformed : Text → Bool
  is_malformed s = not (is_empty s) && is_malformed_id (hex.from_hex s)

  module _ (law : HexLaw hex) where
    read_back-lem :
        (s : Text) (r : Result Oid)
        → hex.from_hex s ≡ r
        → unmarshal_bson_value hex (id_or_text hex s r) ≡ ok (lowered s r)
    unfolding unmarshal_bson_value
    read_back-lem s (ok o) e = ap ok (law.printed s o e)
    read_back-lem s (err x) e = refl

    lower_again :
        (c : ℕ) (s : Text) (r : Result Oid)
        → hex.from_hex (c ∷ s) ≡ r
        → marshal_bson_value hex (lowered (c ∷ s) r) ≡ id_or_text hex (c ∷ s) r
    unfolding marshal_bson_value
    lower_again c s (err x) e = ap (id_or_text hex (c ∷ s)) e
    lower_again c s (ok o) e =
        ap (id_or_text hex (map lower_ascii (c ∷ s)))
          (ap hex.from_hex (sym (law.printed (c ∷ s) o e)) ∙ law.read_back (c ∷ s) o e)

    -- What `StringObjectID` writes it reads as the same text, but for a hexadecimal id, which it
    -- reads in lower case; and that text is written as the same BSON value.
    pub string_object_id_round_trip :
        (s : Text)
        → (unmarshal_bson_value hex (marshal_bson_value hex s) ≡ ok (canonical s))
          × (marshal_bson_value hex (canonical s) ≡ marshal_bson_value hex s)
    unfolding marshal_bson_value unmarshal_bson_value
    string_object_id_round_trip [] = (refl, refl)
    string_object_id_round_trip (c ∷ s) = (
      read_back-lem (c ∷ s) (hex.from_hex (c ∷ s)) refl,
      lower_again c s (hex.from_hex (c ∷ s)) refl,
    )

    same_test :
        (r : Result Oid) → hex.is_nil (nil_or hex r) ≡ (is_nil_ok hex r || is_malformed_id r)
    same_test (ok o) = ground arith
    same_test (err e) = law.nil_is_nil

    -- `IsObjectIDEmpty` is true of the texts of which `IsZero` is, and of those that are no
    -- object id, of which `IsZero` is false; `ObjectID` and `ToObjectID` are the same function.
    pub is_object_id_empty-is_zero :
        (s : Text)
        → (is_object_id_empty hex s ≡ (is_zero hex s || is_malformed s))
          × ((is_malformed s && is_zero hex s) ≡ false)
          × (to_oid hex s ≡ to_object_id hex s)
    unfolding is_object_id_empty is_zero to_oid to_object_id
    is_object_id_empty-is_zero [] = (law.nil_is_nil, refl, refl)
    is_object_id_empty-is_zero (c ∷ s) =
        (same_test (hex.from_hex (c ∷ s)), malformed (hex.from_hex (c ∷ s)), refl)
      where
        malformed : (r : Result Oid) → (is_malformed_id r && is_nil_ok hex r) ≡ false
        malformed (ok o) = refl
        malformed (err e) = refl
