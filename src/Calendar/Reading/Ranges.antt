-- ===== src/Calendar/Reading/Ranges.antt =====
-- The times that the parser of Calendar/Reading.antt makes are times that there are.
use core_shared.Base.{
  ℕ, ◌+◌, ◌-◌, ◌*◌, ◌/◌, ◌≤◌, ◌<◌, Text, Bool, true, false, Bool-cases, inl, inr, Option, none,
  some, List, [], ◌∷◌, ◌==◌, leb, ◌&&◌, ◌||◌, is_digit, if◌then◌else◌, pos, ◌≡◌, arith,
}
use native.Mathlib.Nat.{mul-le-mul_right}
use core_shared.Calendar.{Time, days_in, seconds_back, seconds_forth}
use core_shared.Calendar.Days.{IsTime, seconds_back-IsTime, seconds_forth-IsTime}
use core_shared.Calendar.Layout.{Element, year, month, day, hour, minute, second, literal, Layout}
use core_shared.Calendar.Reading.{
  Fields, no_fields, digit, read_two, read_one_or_two, read_four, read_nanos, read_fraction,
  skip_literal, with_number, with_rest, with_fraction, read_element, continued, read_elements,
  time_of, shifted, in_zone, unzoned, finished, from_fields, parse,
}

-- The fields while they are read: the day is compared with the month at the end.
abbrev InRange : Fields → Type 0
InRange f =
    ((1 ≤ f.month) × (f.month ≤ 12))
    × (f.hour < 24)
    × (f.minute < 60)
    × (f.second < 60)
    × (f.nano < 1000000000)

abbrev ReadsInRange : Option (Fields × Text) → Type 0
ReadsInRange none = Unit {0}
ReadsInRange (some (f, s)) = InRange f

abbrev pub MakesTime : Option Time → Type 0
MakesTime none = Unit {0}
MakesTime (some t) = IsTime t

with_number-ReadsInRange :
    (r : Option (ℕ × Text)) (low high : ℕ) (put : ℕ → Fields)
    → ((n : ℕ) → low ≤ n → n ≤ high → InRange (put n))
    → ReadsInRange (with_number r low high put)
with_number-ReadsInRange none low high put h = tt
with_number-ReadsInRange (some (n, s)) low high put h =
    elim (Bool-cases (leb low n && leb n high)) [
      | inl inside ↦ rw inside (h n (ground (arith, inside)) (ground (arith, inside)))
      | inr outside ↦ rw outside tt
    ]

digit_weight : (c weight : ℕ) → is_digit c ≡ true → digit c * weight ≤ 9 * weight
digit_weight c weight h = mul-le-mul_right weight (ground (arith, h))

-- Nine digits at most count, so that a fraction is less than a second.
read_nanos-le : (weight : ℕ) (s : Text) → (read_nanos weight s).0 ≤ 10 * weight - 1
unfolding read_nanos
read_nanos-le weight [] = omega arith
read_nanos-le weight (c ∷ s) = elim (Bool-cases (is_digit c)) [
  | inl is_one ↦
      rw is_one (omega (arith, digit_weight c weight is_one, read_nanos-le (weight / 10) s))
  | inr is_none ↦ rw is_none (omega arith)
]

read_fraction-lt : (s : Text) → (read_fraction s).0 < 1000000000
unfolding read_fraction
read_fraction-lt [] = omega arith
read_fraction-lt (c ∷ []) = omega arith
read_fraction-lt (c ∷ d ∷ s) = elim (Bool-cases ((c == b'.' || c == b',') && is_digit d)) [
  | inl fraction ↦ rw fraction (omega (arith, read_nanos-le 100000000 (d ∷ s)))
  | inr other ↦ rw other (omega arith)
]

with_fraction-ReadsInRange :
    (r : Option (Fields × Text)) → ReadsInRange r → ReadsInRange (with_fraction r)
with_fraction-ReadsInRange none h = tt
with_fraction-ReadsInRange (some (f, s)) (mo, ho, mi, se, na) = (mo, ho, mi, se, read_fraction-lt s)

with_rest-ReadsInRange : (r : Option Text) (f : Fields) → InRange f → ReadsInRange (with_rest r f)
with_rest-ReadsInRange none f h = tt
with_rest-ReadsInRange (some s) f h = h

read_element-ReadsInRange :
    (e : Element) (f : Fields) (s : Text) → InRange f → ReadsInRange (read_element e f s)
unfolding read_element
read_element-ReadsInRange year f s h =
    with_number-ReadsInRange (read_four s) 0 9999 _ (λ n lo hi. h)
read_element-ReadsInRange month f s (mo, ho, mi, se, na) =
    with_number-ReadsInRange (read_two s) 1 12 _ (λ n lo hi. ((lo, hi), ho, mi, se, na))
read_element-ReadsInRange day f s h = with_number-ReadsInRange (read_two s) 0 99 _ (λ n lo hi. h)
read_element-ReadsInRange hour f s (mo, ho, mi, se, na) =
    with_number-ReadsInRange (read_one_or_two s) 0 23 _ (λ n lo hi. (mo, omega arith, mi, se, na))
read_element-ReadsInRange minute f s (mo, ho, mi, se, na) =
    with_number-ReadsInRange (read_two s) 0 59 _ (λ n lo hi. (mo, ho, omega arith, se, na))
read_element-ReadsInRange second f s (mo, ho, mi, se, na) =
    with_fraction-ReadsInRange (with_number (read_two s) 0 59 (λ n. record f { second = n }))
      (with_number-ReadsInRange (read_two s) 0 59 _ (λ n lo hi. (mo, ho, mi, omega arith, na)))
read_element-ReadsInRange (literal c) f s h = with_rest-ReadsInRange (skip_literal c s) f h

continued-ReadsInRange :
    (rest : Fields → Text → Option (Fields × Text)) (r : Option (Fields × Text))
    → ((f : Fields) (s : Text) → InRange f → ReadsInRange (rest f s))
    → ReadsInRange r
    → ReadsInRange (continued rest r)
continued-ReadsInRange rest none step h = tt
continued-ReadsInRange rest (some (f, s)) step h = step f s h

read_elements-ReadsInRange :
    (es : List Element) (f : Fields) (s : Text) → InRange f → ReadsInRange (read_elements es f s)
unfolding read_elements
read_elements-ReadsInRange [] f s h = h
read_elements-ReadsInRange (e ∷ es) f s h =
    continued-ReadsInRange (read_elements es) (read_element e f s) (read_elements-ReadsInRange es)
      (read_element-ReadsInRange e f s h)

time_of-MakesTime : (f : Fields) → InRange f → MakesTime (time_of f)
unfolding time_of
time_of-MakesTime f (mo, ho, mi, se, na) =
    elim (Bool-cases (leb 1 f.day && leb f.day (days_in f.month (pos f.year)))) [
      | inl there ↦ rw there (record {
        in_month = mo;
        in_day = (ground (arith, there), ground (arith, there));
        in_hour = ho;
        in_minute = mi;
        in_second = se;
        in_nano = na;
      })
      | inr beyond ↦ rw beyond tt
    ]

-- The zone at the end.
if-MakesTime :
    (b : Bool) (r s : Option Time) → MakesTime r → MakesTime s → MakesTime (if b then r else s)
if-MakesTime true r s h k = h
if-MakesTime false r s h k = k

shifted-MakesTime :
    (sign : ℕ) (h m : Option (ℕ × Text)) (t : Time) → IsTime t → MakesTime (shifted sign h m t)
shifted-MakesTime sign (some (h, [])) (some (m, [])) t v =
    if-MakesTime (leb h 24 && leb m 60) _ none
      (if-MakesTime (sign == b'+') (some (seconds_back ((h * 60 + m) * 60) t)) _
        (seconds_back-IsTime ((h * 60 + m) * 60) t v)
        (if-MakesTime (sign == b'-') (some (seconds_forth ((h * 60 + m) * 60) t)) none
          (seconds_forth-IsTime ((h * 60 + m) * 60) t v) tt))
      tt
shifted-MakesTime sign none m t v = tt
shifted-MakesTime sign (some (h, c ∷ s)) m t v = tt
shifted-MakesTime sign (some (h, [])) none t v = tt
shifted-MakesTime sign (some (h, [])) (some (m, c ∷ s)) t v = tt

in_zone-MakesTime : (s : Text) (t : Time) → IsTime t → MakesTime (in_zone s t)
unfolding in_zone
in_zone-MakesTime [] t v = tt
in_zone-MakesTime (c ∷ []) t v = if-MakesTime (c == b'Z') (some t) none v tt
in_zone-MakesTime (sign ∷ a ∷ []) t v = tt
in_zone-MakesTime (sign ∷ a ∷ b ∷ []) t v = tt
in_zone-MakesTime (sign ∷ a ∷ b ∷ colon ∷ []) t v = tt
in_zone-MakesTime (sign ∷ a ∷ b ∷ colon ∷ c ∷ []) t v = tt
in_zone-MakesTime (sign ∷ a ∷ b ∷ colon ∷ c ∷ d ∷ []) t v =
    if-MakesTime (colon == b':') (shifted sign (read_two (a ∷ b ∷ [])) (read_two (c ∷ d ∷ [])) t)
      none (shifted-MakesTime sign (read_two (a ∷ b ∷ [])) (read_two (c ∷ d ∷ [])) t v) tt
in_zone-MakesTime (sign ∷ a ∷ b ∷ colon ∷ c ∷ d ∷ e ∷ s) t v = tt

unzoned-MakesTime : (s : Text) (t : Time) → IsTime t → MakesTime (unzoned s t)
unzoned-MakesTime [] t v = v
unzoned-MakesTime (c ∷ s) t v = tt

finished-MakesTime :
    (zoned : Bool) (s : Text) (r : Option Time) → MakesTime r → MakesTime (finished zoned s r)
finished-MakesTime zoned s none v = tt
finished-MakesTime zoned s (some t) v =
    if-MakesTime zoned (in_zone s t) (unzoned s t) (in_zone-MakesTime s t v)
      (unzoned-MakesTime s t v)

from_fields-MakesTime :
    (zoned : Bool) (r : Option (Fields × Text)) → ReadsInRange r → MakesTime (from_fields zoned r)
from_fields-MakesTime zoned none h = tt
from_fields-MakesTime zoned (some (f, s)) h =
    finished-MakesTime zoned s (time_of f) (time_of-MakesTime f h)

pub parse-MakesTime : (layout : Layout) (s : Text) → MakesTime (parse layout s)
unfolding parse
parse-MakesTime layout s =
    from_fields-MakesTime layout.zoned (read_elements layout.elements no_fields s) (
      read_elements-ReadsInRange layout.elements no_fields s
        ((omega arith, omega arith), omega arith, omega arith, omega arith, omega arith))
