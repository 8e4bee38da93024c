-- ===== src/Tests/Dates.antt =====
-- The dates, object ids and filters of mongo/ at concrete inputs. `quote` is taken as the identity.
use core_shared.Base.{
  Option, ℕ, Text, codes, Bool, true, false, text_eq, text_eq_iff, to_lower, ◌∙◌, sym, none, some,
  pos, negsuc, ◌≡◌, refl, arith,
}
use core_shared.Apperror.{Error, plain}
use core_shared.Returns.{Result, ok, err}
use core_shared.Calendar.{Time, at, zero_time, IsValid, days_in, unix_milli}
use core_shared.Calendar.Layout.{date_time_layout}
use core_shared.Calendar.Reading.{parse}
use core_shared.Mongo.Bson.{Bson, null, string}
use core_shared.Mongo.Dates.{parse_flexible_time}
use core_shared.Mongo.Dates.DateTimes
use core_shared.Mongo.Dates.TimeOnlys
use core_shared.Mongo.Dates.DateOnlys
use core_shared.Mongo.Dates.Order.{text_less, to_text-less}
use core_shared.Mongo.Dates.Registry.{encode_time_as_string, Compared, registry-DateTimes}
use core_shared.Mongo.Dates.RoundTrip.{date_times_round_trip}
use core_shared.Mongo.ObjectId.{Hex, marshal_bson_value, unmarshal_bson_value}
use core_shared.Mongo.ObjectId.Laws.{HexLaw, string_object_id_round_trip}
use core_shared.Mongo.Patterns.{starts_with, ends_with, contains}
use core_shared.Mongo.Patterns.Meaning.{read_pattern, patterns_lem}

abbrev same : Text → Text
same s = s

-- The last second of a leap day, with a fraction.
abbrev leap_day : Time
leap_day = record (at (pos 2000) 2 29 23 59 59) { nano = 5 }

leap_day-IsValid : IsValid leap_day 2000
unfolding days_in
leap_day-IsValid = record {
  in_year = refl;
  in_month = (omega arith, omega arith);
  in_day = (omega arith, omega arith);
  in_hour = omega arith;
  in_minute = omega arith;
  in_second = omega arith;
}

epoch : unix_milli (pos 0) ≡ at (pos 1970) 1 1 0 0 0
unfolding unix_milli
epoch = refl

before_epoch : unix_milli (negsuc 0) ≡ record (at (pos 1969) 12 31 23 59 59) { nano = 999000000 }
unfolding unix_milli
before_epoch = refl

at_leap_day : unix_milli (pos 951868799000) ≡ at (pos 2000) 2 29 23 59 59
unfolding unix_milli
at_leap_day = refl

leap_day_text : DateTimes.to_text leap_day ≡ codes "2000-02-29 23:59:59"
unfolding DateTimes.to_text
leap_day_text = refl

no_such_day :
    parse_flexible_time same (codes "2001-02-29") date_time_layout
    ≡ err (plain (codes "mongo: cannot parse 2001-02-29 as time"))
unfolding parse_flexible_time parse days_in
no_such_day = refl

abbrev night : Text
night = codes "2000-12-31T23:30:00-01:00"

abbrev night_value : Bson ℕ
night_value = string (ok night)

date_times_round_trip_example :
    (DateTimes.unmarshal_bson_value same unix_milli
        (DateTimes.marshal_bson_value {Oid = ℕ} leap_day)
      ≡ ok (at (pos 2000) 2 29 23 59 59))
    × (DateTimes.unmarshal_json same (DateTimes.marshal_json leap_day)
        ≡ ok (at (pos 2000) 2 29 23 59 59))
date_times_round_trip_example =
    date_times_round_trip same unix_milli ℕ leap_day 2000 leap_day-IsValid (omega arith)

zero_time-IsValid : IsValid zero_time 1
unfolding days_in
zero_time-IsValid = record {
  in_year = refl;
  in_month = (omega arith, omega arith);
  in_day = (omega arith, omega arith);
  in_hour = omega arith;
  in_minute = omega arith;
  in_second = omega arith;
}

abbrev not_null : Error
not_null = plain (codes "undefined is not valid for null")

abbrev read_null : Bson ℕ → Option Error
read_null null = none
read_null value = some not_null

registry-DateTimes_example :
    ((t : Time) → encode_time_as_string {Oid = ℕ} (some t) ≡ ok (DateTimes.marshal_bson_value t))
    × ((b : Bson ℕ) → Compared {Oid = ℕ} same read_null not_null b)
registry-DateTimes_example = registry-DateTimes {Oid = ℕ} same read_null not_null refl refl

-- Object ids of one digit: "a" and "A" are the same id, "0" is the nil id and not read.
abbrev read_if : Bool → Result Text
read_if true = ok (codes "a")
read_if false = err (plain (codes "not a digit"))

abbrev digits : Hex Text
digits = record {
  from_hex = λ s. read_if (text_eq (to_lower s) (codes "a"));
  to_hex = λ o. o;
  is_nil = λ o. text_eq o (codes "0");
  nil_id = codes "0";
}

read_if_lem : (b : Bool) (o : Text) → read_if b ≡ ok o → (b ≡ true) × (o ≡ codes "a")
read_if_lem true o e = (refl, cc)
read_if_lem false o e = cc

digits_law : HexLaw digits
unfolding text_eq
digits_law = record {
  printed = λ s o e.
      let (asked, is_a) = read_if_lem _ o e in is_a ∙ sym ((text_eq_iff _ (codes "a")).0 asked);
  read_back = λ s o e. let (asked, is_a) = read_if_lem _ o e in rw is_a;
  nil_is_nil = refl;
}

string_object_id_round_trip_example :
    (unmarshal_bson_value digits (marshal_bson_value digits (codes "A")) ≡ ok (codes "a"))
    × (marshal_bson_value digits (codes "a") ≡ marshal_bson_value digits (codes "A"))
unfolding text_eq
string_object_id_round_trip_example = string_object_id_round_trip digits digits_law (codes "A")

-- A value with an operator in it.
patterns_lem_example :
    (read_pattern (starts_with (codes "name") (codes "a.*$")).pattern
      ≡ some (record { at_start = true; literal = codes "a.*$"; at_end = false }))
    × (read_pattern (ends_with (codes "name") (codes "a.*$")).pattern
        ≡ some (record { at_start = false; literal = codes "a.*$"; at_end = true }))
    × (read_pattern (contains (codes "name") (codes "a.*$")).pattern
        ≡ some (record { at_start = false; literal = codes "a.*$"; at_end = false }))
patterns_lem_example = patterns_lem (codes "name") (codes "a.*$")

escaped : (starts_with (codes "name") (codes "a.b")).pattern ≡ codes "^a\\.b"
unfolding starts_with
escaped = refl

to_text-less_example :
    (text_less (DateTimes.to_text zero_time) (DateTimes.to_text leap_day) ≡ true)
    × (text_less (DateOnlys.to_text zero_time) (DateOnlys.to_text leap_day) ≡ true)
    × (text_less (TimeOnlys.to_text zero_time) (TimeOnlys.to_text leap_day) ≡ true)
to_text-less_example =
    to_text-less zero_time leap_day 1 2000 zero_time-IsValid leap_day-IsValid (omega arith)
      (omega arith)
