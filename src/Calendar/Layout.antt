-- ===== src/Calendar/Layout.antt =====
-- The layouts of package `time` that the code uses, and `Format`.
use core_shared.Base.{
  ℕ, ◌+◌, ◌/◌, ◌%◌, Text, Bool, true, false, List, [], ◌∷◌, ◌++◌, ltb, if◌then◌else◌, ℤ, pos,
  negsuc,
}
use core_shared.Json.{decimal}
use core_shared.Calendar.{Time}

pub data Element : Type 0 where
  year month day hour minute second : Element
  literal : ℕ → Element

-- `zoned` says that a fraction of the second and the zone Z07:00 stand at the end.
pub record Layout : Type 0 where
  pub elements : List Element
  pub zoned : Bool

abbrev pub dashed_date : List Element → List Element
dashed_date rest = year ∷ literal b'-' ∷ month ∷ literal b'-' ∷ day ∷ rest

abbrev pub clock : List Element
clock = hour ∷ literal b':' ∷ minute ∷ literal b':' ∷ second ∷ []

abbrev pub date_time_layout : Layout
date_time_layout = record { elements = dashed_date (literal b' ' ∷ clock); zoned = false }

abbrev pub date_only_layout : Layout
date_only_layout = record { elements = dashed_date []; zoned = false }

abbrev pub time_only_layout : Layout
time_only_layout = record { elements = clock; zoned = false }

-- `time.RFC3339Nano` and `time.RFC3339`: what they parse is the same.
abbrev pub rfc3339 : Layout
rfc3339 = record { elements = dashed_date (literal b'T' ∷ clock); zoned = true }

unfoldable pub two_digits : ℕ → Text
two_digits n = (b'0' + n / 10) ∷ (b'0' + n % 10) ∷ []

unfoldable pub four_digits : ℕ → Text
four_digits n =
    if ltb n 10000
    then (b'0' + n / 1000) ∷ (b'0' + n / 100 % 10) ∷ (b'0' + n / 10 % 10) ∷ (b'0' + n % 10) ∷ []
    else decimal n

abbrev pub year_text : ℤ → Text
year_text (pos n) = four_digits n
year_text (negsuc n) = b'-' ∷ four_digits (n + 1)

abbrev pub element_text : Element → Time → Text
element_text year t = year_text t.year
element_text month t = two_digits t.month
element_text day t = two_digits t.day
element_text hour t = two_digits t.hour
element_text minute t = two_digits t.minute
element_text second t = two_digits t.second
element_text (literal c) t = c ∷ []

-- `t.Format` of a layout with no zone.
unfoldable pub format : List Element → Time → Text
unfolding two_digits four_digits
format [] t = []
format (e ∷ es) t = element_text e t ++ format es t
