-- ===== src/Mongo/Dates.antt =====
-- mongo/datetime.go: the types of dates and clocks, and what they are read from. `quote` is the
-- verb %q of `fmt`, and `as_time` what the driver reads a native date as.
pub mod DateTimes
pub mod DateOnlys
pub mod TimeOnlys
pub mod Registry
pub mod RoundTrip
pub mod Decoded
pub mod Order
use core_shared.Base.{
  Text, codes, Option, none, some, Bool, List, [], ◌∷◌, ◌++◌, ◌==◌, ℤ, if◌then◌else◌,
}
use core_shared.Apperror.{Error, plain}
use core_shared.Returns.{Result, ok, err}
use core_shared.Calendar.{Time, zero_time}
use core_shared.Calendar.Layout.{
  Layout, date_time_layout, date_only_layout, time_only_layout, rfc3339, format,
}
use core_shared.Calendar.Reading.{parse}
use core_shared.Mongo.Bson.{Bson, null, undefined, date_time, string, object_id, other}

-- The text without its last byte, if that is a quote.
unfoldable pub before_quote : Text → Option Text
before_quote [] = none
before_quote (c ∷ []) = if c == b'"' then some [] else none
before_quote (c ∷ d ∷ s) = elim (before_quote (d ∷ s)) [ none ↦ none | some t ↦ some (c ∷ t) ]

abbrev pub or_whole : Text → Option Text → Text
or_whole whole none = whole
or_whole whole (some inner) = inner

unfoldable pub trim_quotes : Text → Text
unfolding before_quote
trim_quotes [] = []
trim_quotes (c ∷ s) = if c == b'"' then or_whole (c ∷ s) (before_quote s) else c ∷ s

abbrev pub or_later : Option Time → Option Time → Option Time
or_later none later = later
or_later (some t) later = some t

-- The first layout that fits.
unfoldable pub first_parse : List Layout → Text → Option Time
first_parse [] s = none
first_parse (l ∷ ls) s = or_later (parse l s) (first_parse ls s)

abbrev pub layouts : Layout → List Layout
layouts primary =
    primary ∷ rfc3339 ∷ rfc3339 ∷ date_time_layout ∷ date_only_layout ∷ time_only_layout ∷ []

-- A time's text has digits, dashes, colons and spaces only, so that %q puts quotes around it.
abbrev pub quoted : Text → Text
quoted s = b'"' ∷ (s ++ b'"' ∷ [])

module _ (quote : Text → Text) where
  abbrev pub or_error : Text → Option Time → Result Time
  or_error s (some t) = ok t
  or_error s none = err (plain (codes "mongo: cannot parse " ++ (quote s ++ codes " as time")))

  unfoldable pub parse_flexible_time : Text → Layout → Result Time
  unfolding first_parse
  parse_flexible_time [] primary = ok zero_time
  parse_flexible_time (c ∷ s) primary = or_error (c ∷ s) (first_parse (layouts primary) (c ∷ s))

  abbrev pub from_text : Result Text → Layout → Result Time
  from_text (ok s) layout = parse_flexible_time s layout
  from_text (err e) layout = err e

abbrev pub native : (ℤ → Time) → Result ℤ → Result Time
native as_time (ok ms) = ok (as_time ms)
native as_time (err e) = err e

abbrev pub cannot_decode : Text → Text → Error
cannot_decode type_name wanted =
    plain (codes "mongo: cannot decode bson type " ++ (type_name ++ wanted))

module _ {Oid : Type 0} (quote : Text → Text) (as_time : ℤ → Time) where
  unfoldable pub decode_time_value : Bson Oid → Layout → Result Time
  unfolding parse_flexible_time
  decode_time_value null layout = ok zero_time
  decode_time_value undefined layout = ok zero_time
  decode_time_value (date_time r) layout = native as_time r
  decode_time_value (string r) layout = from_text quote r layout
  decode_time_value (object_id r) layout =
      err (cannot_decode (codes "objectID") (codes " as datetime"))
  decode_time_value (other name) layout = err (cannot_decode name (codes " as datetime"))
