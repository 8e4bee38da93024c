-- ===== src/Calendar/Reading.antt =====
-- `time.ParseInLocation` with the location UTC, for the layouts that the code uses; none is an
-- error. What the parser for RFC 3339 alone accepts, this one accepts with the same result.
pub mod RoundTrip
pub mod Ranges
use core_shared.Base.{
  ℕ, ◌+◌, ◌-◌, ◌*◌, ◌/◌, Text, Bool, true, false, Option, none, some, List, [], ◌∷◌, ◌==◌, ltb, leb,
  ◌&&◌, ◌||◌, is_digit, if◌then◌else◌, pos,
}
use core_shared.Calendar.{Time, zero_time, at, days_in, seconds_back, seconds_forth}
use core_shared.Calendar.Layout.{Element, year, month, day, hour, minute, second, literal, Layout}

-- The fields so far, and what is left of the text.
pub record Fields : Type 0 where
  pub year : ℕ
  pub month : ℕ
  pub day : ℕ
  pub hour : ℕ
  pub minute : ℕ
  pub second : ℕ
  pub nano : ℕ

-- A layout with no date leaves the year 0 and the first of January.
abbrev pub no_fields : Fields
no_fields = record { year = 0; month = 1; day = 1; hour = 0; minute = 0; second = 0; nano = 0 }

abbrev pub digit : ℕ → ℕ
digit c = c - b'0'

-- `getnum`, where two digits are needed.
unfoldable pub read_two : Text → Option (ℕ × Text)
read_two (a ∷ b ∷ s) = if is_digit a && is_digit b then some (digit a * 10 + digit b, s) else none
read_two s = none

-- `getnum`, where one digit is enough.
unfoldable pub read_one_or_two : Text → Option (ℕ × Text)
read_one_or_two (a ∷ []) = if is_digit a then some (digit a, []) else none
read_one_or_two (a ∷ b ∷ s) =
    if is_digit a
    then (if is_digit b then some (digit a * 10 + digit b, s) else some (digit a, b ∷ s))
    else none
read_one_or_two [] = none

unfoldable pub read_four : Text → Option (ℕ × Text)
read_four (a ∷ b ∷ c ∷ d ∷ s) =
    if is_digit a && is_digit b && is_digit c && is_digit d
    then some (digit a * 1000 + digit b * 100 + digit c * 10 + digit d, s)
    else none
read_four s = none

-- The digits of a fraction, each of a tenth of the weight before; those behind the ninth count
-- for nothing.
unfoldable pub read_nanos : ℕ → Text → ℕ × Text
read_nanos weight [] = (0, [])
read_nanos weight (c ∷ s) =
    let (n, rest) = read_nanos (weight / 10) s in
    if is_digit c then (digit c * weight + n, rest) else (0, c ∷ s)

-- A point or a comma with a digit behind it starts a fraction.
unfoldable pub read_fraction : Text → ℕ × Text
unfolding read_nanos
read_fraction (c ∷ d ∷ s) =
    if (c == b'.' || c == b',') && is_digit d then read_nanos 100000000 (d ∷ s) else (0, c ∷ d ∷ s)
read_fraction s = (0, s)

abbrev pub skip_spaces : Text → Text
skip_spaces [] = []
skip_spaces (c ∷ s) = if c == b' ' then skip_spaces s else c ∷ s

-- A space of the layout stands for any number of spaces, but for none before another byte.
unfoldable pub skip_literal : ℕ → Text → Option Text
skip_literal c [] = if c == b' ' then some [] else none
skip_literal c (d ∷ s) = if d == c then some (if c == b' ' then skip_spaces s else s) else none

abbrev pub with_number : Option (ℕ × Text) → ℕ → ℕ → (ℕ → Fields) → Option (Fields × Text)
with_number none low high put = none
with_number (some (n, s)) low high put = if leb low n && leb n high then some (put n, s) else none

abbrev pub with_rest : Option Text → Fields → Option (Fields × Text)
with_rest none f = none
with_rest (some s) f = some (f, s)

abbrev pub with_fraction : Option (Fields × Text) → Option (Fields × Text)
with_fraction none = none
with_fraction (some (f, s)) =
    let (nano, rest) = read_fraction s in some (record f { nano = nano }, rest)

-- A day is compared with the length of the month at the end only.
unfoldable pub read_element : Element → Fields → Text → Option (Fields × Text)
unfolding read_two read_one_or_two read_four read_fraction skip_literal
read_element year f s = with_number (read_four s) 0 9999 (λ n. record f { year = n })
read_element month f s = with_number (read_two s) 1 12 (λ n. record f { month = n })
read_element day f s = with_number (read_two s) 0 99 (λ n. record f { day = n })
read_element hour f s = with_number (read_one_or_two s) 0 23 (λ n. record f { hour = n })
read_element minute f s = with_number (read_two s) 0 59 (λ n. record f { minute = n })
read_element second f s =
    with_fraction (with_number (read_two s) 0 59 (λ n. record f { second = n }))
read_element (literal c) f s = with_rest (skip_literal c s) f

abbrev pub continued :
    (Fields → Text → Option (Fields × Text)) → Option (Fields × Text) → Option (Fields × Text)
continued rest none = none
continued rest (some (f, s)) = rest f s

unfoldable pub read_elements : List Element → Fields → Text → Option (Fields × Text)
unfolding read_element
read_elements [] f s = some (f, s)
read_elements (e ∷ es) f s = continued (read_elements es) (read_element e f s)

-- The time of the fields, if the month has the day.
unfoldable pub time_of : Fields → Option Time
time_of f =
    if leb 1 f.day && leb f.day (days_in f.month (pos f.year))
    then some (record {
      year = pos f.year;
      month = f.month;
      day = f.day;
      hour = f.hour;
      minute = f.minute;
      second = f.second;
      nano = f.nano;
    })
    else none

-- `Z`, or a sign, hours of two digits, a colon and minutes of two digits, at the end: the time
-- is that many seconds before or after what the fields say. Hours to 24 and minutes to 60 pass.
abbrev pub shifted : ℕ → Option (ℕ × Text) → Option (ℕ × Text) → Time → Option Time
shifted sign (some (h, [])) (some (m, [])) t =
    if leb h 24 && leb m 60
    then (if sign == b'+'
        then some (seconds_back ((h * 60 + m) * 60) t)
        else if sign == b'-'
        then some (seconds_forth ((h * 60 + m) * 60) t)
        else none)
    else none
shifted sign h m t = none

unfoldable pub in_zone : Text → Time → Option Time
unfolding read_two seconds_back seconds_forth
in_zone (c ∷ []) t = if c == b'Z' then some t else none
in_zone (sign ∷ a ∷ b ∷ colon ∷ c ∷ d ∷ []) t =
    if colon == b':' then shifted sign (read_two (a ∷ b ∷ [])) (read_two (c ∷ d ∷ [])) t else none
in_zone s t = none

abbrev pub unzoned : Text → Time → Option Time
unzoned [] t = some t
unzoned (c ∷ s) t = none

abbrev pub finished : Bool → Text → Option Time → Option Time
finished zoned s none = none
finished zoned s (some t) = if zoned then in_zone s t else unzoned s t

abbrev pub from_fields : Bool → Option (Fields × Text) → Option Time
from_fields zoned none = none
from_fields zoned (some (f, s)) = finished zoned s (time_of f)

unfoldable pub parse : Layout → Text → Option Time
unfolding read_elements time_of in_zone
parse layout s = from_fields layout.zoned (read_elements layout.elements no_fields s)
