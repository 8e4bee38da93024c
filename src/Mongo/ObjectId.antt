-- ===== src/Mongo/ObjectId.antt =====
-- mongo/objectid.go: `StringObjectID`, and the object ids of mongo/bsonutil.go. The driver's object
-- ids are a type `Oid` with what the code uses of it.
pub mod Laws
use core_shared.Base.{Text, codes, Bool, true, false, List, [], ◌∷◌, ◌++◌, map, lower_ascii, ℤ, ◌≡◌}
use core_shared.Apperror.{Error, plain}
use core_shared.Returns.{Result, ok, err}
use core_shared.Mongo.Bson.{Bson, null, undefined, date_time, string, object_id, other}

pub record Hex (Oid : Type 0) : Type 0 where
  pub from_hex : Text → Result Oid
  pub to_hex : Oid → Text
  pub is_nil : Oid → Bool
  pub nil_id : Oid

abbrev pub cannot_decode : Text → Error
cannot_decode type_name =
    plain (codes "mongo: cannot decode bson type " ++ (type_name ++ codes " as StringObjectID"))

module _ {Oid : Type 0} (hex : Hex Oid) where
  abbrev pub nil_or : Result Oid → Oid
  nil_or (ok o) = o
  nil_or (err e) = hex.nil_id

  abbrev pub is_nil_ok : Result Oid → Bool
  is_nil_ok (ok o) = hex.is_nil o
  is_nil_ok (err e) = false

  unfoldable pub is_zero : Text → Bool
  is_zero [] = true
  is_zero (c ∷ s) = is_nil_ok (hex.from_hex (c ∷ s))

  unfoldable pub to_oid : Text → Oid
  to_oid [] = hex.nil_id
  to_oid (c ∷ s) = nil_or (hex.from_hex (c ∷ s))

  abbrev pub id_or_text : Text → Result Oid → Bson Oid
  id_or_text s (ok o) = object_id (ok o)
  id_or_text s (err e) = string (ok s)

  unfoldable pub marshal_bson_value : Text → Bson Oid
  marshal_bson_value [] = null
  marshal_bson_value (c ∷ s) = id_or_text (c ∷ s) (hex.from_hex (c ∷ s))

  abbrev pub hex_of : Result Oid → Result Text
  hex_of (ok o) = ok (hex.to_hex o)
  hex_of (err e) = err e

  unfoldable pub unmarshal_bson_value : Bson Oid → Result Text
  unmarshal_bson_value null = ok []
  unmarshal_bson_value undefined = ok []
  unmarshal_bson_value (object_id r) = hex_of r
  unmarshal_bson_value (string r) = r
  unmarshal_bson_value (date_time r) = err (cannot_decode (codes "UTC datetime"))
  unmarshal_bson_value (other name) = err (cannot_decode name)

  -- `ToObjectID` and `IsObjectIDEmpty`
  unfoldable pub to_object_id : Text → Oid
  to_object_id [] = hex.nil_id
  to_object_id (c ∷ s) = nil_or (hex.from_hex (c ∷ s))

  unfoldable pub is_object_id_empty : Text → Bool
  unfolding to_object_id
  is_object_id_empty s = hex.is_nil (to_object_id s)
