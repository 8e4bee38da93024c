-- ===== src/Mongo/Dates/Registry.antt =====
-- mongo/registry.go: the codec of `time.Time` in the registry.
use core_shared.Base.{
  Text, codes, Bool, true, false, Option, none, some, [], ◌∷◌, ◌≡◌, refl, sym, ap,
}
use mathlib.Core.Path.{subst}
use core_shared.Apperror.{Error, plain}
use core_shared.Returns.{Result, ok, err}
use core_shared.Calendar.{Time, zero_time, unix_milli}
use core_shared.Calendar.Layout.{format, date_time_layout}
use core_shared.Mongo.Bson.{Bson, null, undefined, date_time, string, object_id, other}
use core_shared.Mongo.Dates.{parse_flexible_time, cannot_decode, native, from_text}
use core_shared.Mongo.Dates.DateTimes

-- The value is none where it is no `time.Time`. What is written is a string.
unfoldable pub encode_time_as_string : {Oid : Type 0} → Option Time → Result (Bson Oid)
unfolding format
encode_time_as_string none = err (plain (codes "mongo: encoder received non time.Time value"))
encode_time_as_string (some t) = ok (string (ok (format date_time_layout.elements t)))

-- What the decoder has set the value to, if it has, and its error.
abbrev pub Decoded : Type 0
Decoded = Option Time × Option Error

abbrev pub set_to : Result Time → Decoded
set_to (ok t) = (some t, none)
set_to (err e) = (none, some e)

-- An empty text is tested here, and in `parseFlexibleTime` again.
abbrev pub decode_text : (Text → Text) → Result Text → Decoded
decode_text quote (err e) = (none, some e)
decode_text quote (ok []) = (some zero_time, none)
decode_text quote (ok (c ∷ s)) = set_to (parse_flexible_time quote (c ∷ s) date_time_layout)

-- `read_null` is the driver's answer to `ReadNull` on a value.
module _ {Oid : Type 0} (quote : Text → Text) (read_null : Bson Oid → Option Error) where
  unfoldable pub decode_value : Bson Oid → Decoded
  decode_value null = (some zero_time, read_null null)
  decode_value undefined = (some zero_time, read_null undefined)
  decode_value (date_time r) = set_to (native unix_milli r)
  decode_value (string r) = decode_text quote r
  decode_value (object_id r) =
      (none, some (cannot_decode (codes "objectID") (codes " as time.Time")))
  decode_value (other name) = (none, some (cannot_decode name (codes " as time.Time")))

  -- `is_settable` is `CanSet` of the value.
  unfoldable pub decode_time_from_string : Bool → Bson Oid → Decoded
  unfolding decode_value
  decode_time_from_string false b =
      (none, some (plain (codes "mongo: decoder received non-settable time.Time value")))
  decode_time_from_string true b = decode_value b

  abbrev pub Agrees : Decoded → Result Time → Type 0
  Agrees (some t, none) (ok t') = t ≡ t'
  Agrees (none, some e) (err e') = Unit {0}
  Agrees decoded result = ⊥

  set_to-Agrees : (r : Result Time) → Agrees (set_to r) r
  set_to-Agrees (ok t) = refl
  set_to-Agrees (err e) = tt

  decode_text-Agrees :
      (r : Result Text) → Agrees (decode_text quote r) (from_text quote r date_time_layout)
  unfolding parse_flexible_time
  decode_text-Agrees (err e) = tt
  decode_text-Agrees (ok []) = refl
  decode_text-Agrees (ok (c ∷ s)) =
      set_to-Agrees (parse_flexible_time quote (c ∷ s) date_time_layout)

  -- The codec refuses undefined, and has set the value to the zero time by then; `DateTime` reads
  -- the zero time from it. From every other value they read the same time, or both refuse it.
  abbrev pub Compared : Error → Bson Oid → Type 0
  Compared e undefined =
      (decode_time_from_string true undefined ≡ (some zero_time, some e))
      × (DateTimes.unmarshal_bson_value {Oid = Oid} quote unix_milli undefined ≡ ok zero_time)
  Compared e b =
      Agrees (decode_time_from_string true b) (DateTimes.unmarshal_bson_value quote unix_milli b)

  decode-Compared :
      (e : Error) (b : Bson Oid)
      → read_null null ≡ none
      → read_null undefined ≡ some e
      → Compared e b
  unfolding decode_time_from_string DateTimes.unmarshal_bson_value
  decode-Compared e null on_null on_undefined =
      subst (λ r. Agrees (some zero_time, r) (ok zero_time)) (sym on_null) refl
  decode-Compared e undefined on_null on_undefined =
      (ap (λ r. (some zero_time, r)) on_undefined, refl)
  decode-Compared e (date_time r) on_null on_undefined = set_to-Agrees (native unix_milli r)
  decode-Compared e (string r) on_null on_undefined = decode_text-Agrees r
  decode-Compared e (object_id r) on_null on_undefined = tt
  decode-Compared e (other name) on_null on_undefined = tt

  -- The codec of the registry and the type `DateTime` write the same value for each time. Where
  -- the driver reads a native date as `time.UnixMilli` does, and its `ReadNull` takes null and
  -- answers undefined with an error, they read the same time from each BSON value, or both refuse
  -- it, undefined excepted: there the codec sets the value to the zero time and returns the
  -- driver's error, and `DateTime` reads the zero time.
  pub registry-DateTimes :
      (e : Error)
      → read_null null ≡ none
      → read_null undefined ≡ some e
      → ((t : Time)
          → encode_time_as_string {Oid = Oid} (some t) ≡ ok (DateTimes.marshal_bson_value t))
        × ((b : Bson Oid) → Compared e b)
  unfolding encode_time_as_string DateTimes.marshal_bson_value
  registry-DateTimes e on_null on_undefined =
      (λ t. refl, λ b. decode-Compared e b on_null on_undefined)
