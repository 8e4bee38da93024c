-- ===== src/Mongo/Dates/DateTimes.antt =====
-- mongo/datetime.go: the methods of `DateTime`.
use core_shared.Base.{Text, ℤ, Bool}
use core_shared.Returns.{Result, ok}
use core_shared.Calendar
use core_shared.Calendar.{Time}
use core_shared.Calendar.Layout.{date_time_layout, format}
use core_shared.Mongo.Bson.{Bson, string}
use core_shared.Mongo.Dates.{quoted, trim_quotes, parse_flexible_time, decode_time_value}

abbrev pub is_zero : Time → Bool
is_zero = Calendar.is_zero

unfoldable pub to_text : Time → Text
unfolding format
to_text d = format date_time_layout.elements d

unfoldable pub marshal_json : Time → Text
unfolding to_text
marshal_json d = quoted (to_text d)

unfoldable pub unmarshal_json : (Text → Text) → Text → Result Time
unfolding parse_flexible_time trim_quotes
unmarshal_json quote bytes = parse_flexible_time quote (trim_quotes bytes) date_time_layout

module _ {Oid : Type 0} where
  unfoldable pub marshal_bson_value : Time → Bson Oid
  unfolding to_text
  marshal_bson_value d = string (ok (to_text d))

  unfoldable pub unmarshal_bson_value : (Text → Text) → (ℤ → Time) → Bson Oid → Result Time
  unfolding decode_time_value
  unmarshal_bson_value quote as_time b = decode_time_value quote as_time b date_time_layout
