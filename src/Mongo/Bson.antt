-- ===== src/Mongo/Bson.antt =====
-- Values of BSON, as the driver hands them to the codecs of mongo/. Where the bytes of a value can
-- be damaged, the value holds the driver's error instead.
use core_shared.Base.{Text, ℤ}
use core_shared.Returns.{Result}

-- An object id is of the driver's type `Oid`; `other` is any other type, by its name.
pub data Bson (Oid : Type 0) : Type 0 where
  null undefined : Bson Oid
  date_time : Result ℤ → Bson Oid
  string : Result Text → Bson Oid
  object_id : Result Oid → Bson Oid
  other : Text → Bson Oid
