-- ===== src/Calendar.antt =====
-- What the code uses of package `time`: points in time, as date and clock in UTC.
pub mod Layout
pub mod Reading
pub mod Days
pub mod Civil
use core_shared.Base.{
  ◌≡◌, ℕ, zero, suc, ◌+◌, ◌-◌, ◌*◌, ◌/◌, ◌%◌, ◌≤◌, ◌<◌, Bool, true, false, not, ◌&&◌, ◌||◌, ◌==◌,
  ltb, leb, if◌then◌else◌, ℤ, pos, negsuc, sub_ℕ,
}

pub record Time : Type 0 where
  pub year : ℤ
  pub month : ℕ
  pub day : ℕ
  pub hour : ℕ
  pub minute : ℕ
  pub second : ℕ
  pub nano : ℕ

abbrev pub at : ℤ → ℕ → ℕ → ℕ → ℕ → ℕ → Time
at y mo d h mi s = record {
  year = y;
  month = mo;
  day = d;
  hour = h;
  minute = mi;
  second = s;
  nano = 0;
}

-- `time.Time{}`: the first of January of the year 1.
abbrev pub zero_time : Time
zero_time = at (pos 1) 1 1 0 0 0

abbrev year_one : ℤ → Bool
year_one (pos n) = n == 1
year_one (negsuc n) = false

-- `t.IsZero()`
unfoldable pub is_zero : Time → Bool
is_zero t =
    year_one t.year
    && t.month == 1
    && t.day == 1
    && t.hour == 0
    && t.minute == 0
    && t.second == 0
    && t.nano == 0

abbrev pub magnitude : ℤ → ℕ
magnitude (pos n) = n
magnitude (negsuc n) = suc n

unfoldable pub is_leap : ℤ → Bool
is_leap year = let y = magnitude year in y % 4 == 0 && (not (y % 100 == 0) || y % 400 == 0)

unfoldable pub days_in : ℕ → ℤ → ℕ
unfolding is_leap
days_in month year =
    if month == 2
    then (if is_leap year then 29 else 28)
    else if month == 4 || month == 6 || month == 9 || month == 11
    then 30
    else 31

-- The times that there are, with a year that is not negative.
pub record IsValid (t : Time) (year : ℕ) : Type 0 where
  pub in_year : t.year ≡ pos year
  pub in_month : (1 ≤ t.month) × (t.month ≤ 12)
  pub in_day : (1 ≤ t.day) × (t.day ≤ days_in t.month t.year)
  pub in_hour : t.hour < 24
  pub in_minute : t.minute < 60
  pub in_second : t.second < 60

abbrev pub next_year : ℤ → ℤ
next_year (pos n) = pos (n + 1)
next_year (negsuc zero) = pos 0
next_year (negsuc (suc n)) = negsuc n

abbrev pub last_year : ℤ → ℤ
last_year (pos zero) = negsuc 0
last_year (pos (suc n)) = pos n
last_year (negsuc n) = negsuc (n + 1)

unfoldable pub next_day : Time → Time
next_day t =
    if ltb t.day (days_in t.month t.year)
    then record t { day = t.day + 1 }
    else if ltb t.month 12
    then record t { month = t.month + 1; day = 1 }
    else record t { year = next_year t.year; month = 1; day = 1 }

unfoldable pub last_day : Time → Time
last_day t =
    if ltb 1 t.day
    then record t { day = t.day - 1 }
    else if ltb 1 t.month
    then record t { month = t.month - 1; day = days_in (t.month - 1) t.year }
    else record t { year = last_year t.year; month = 12; day = 31 }

unfoldable pub times : ℕ → (Time → Time) → Time → Time
times zero f t = t
times (suc n) f t = times n f (f t)

abbrev pub second_of_day : Time → ℕ
second_of_day t = t.hour * 3600 + t.minute * 60 + t.second

abbrev pub at_second : ℕ → Time → Time
at_second s t = record t { hour = s / 3600; minute = s / 60 % 60; second = s % 60 }

-- `t.Add` of so many seconds back, for at most two days, and forth.
unfoldable pub seconds_back : ℕ → Time → Time
unfolding times last_day
seconds_back n t =
    let total = second_of_day t + 172800 - n in
    at_second (total % 86400) (times (2 - total / 86400) last_day t)

unfoldable pub seconds_forth : ℕ → Time → Time
unfolding times next_day
seconds_forth n t =
    let total = second_of_day t + n in at_second (total % 86400) (times (total / 86400) next_day t)

-- Division that rounds down, and its remainder, by a positive number.
abbrev pub div_floor : ℤ → ℕ → ℤ
div_floor (pos n) d = pos (n / d)
div_floor (negsuc n) d = negsuc (n / d)

abbrev pub mod_floor : ℤ → ℕ → ℕ
mod_floor (pos n) d = n % d
mod_floor (negsuc n) d = d - 1 - n % d

abbrev pub plus : ℤ → ℕ → ℤ
plus (pos m) n = pos (m + n)
plus (negsuc m) n = sub_ℕ n (m + 1)

abbrev pub times_400 : ℤ → ℤ
times_400 (pos n) = pos (n * 400)
times_400 (negsuc n) = negsuc (n * 400 + 399)

-- The date of a day that is counted from the first of January 1970.
unfoldable pub date_of_day : ℤ → Time
date_of_day days =
    let z = plus days 719468 in
    let doe = mod_floor z 146097 in
    let yoe = (doe - doe / 1460 + doe / 36524 - doe / 146096) / 365 in
    let doy = doe - (365 * yoe + yoe / 4 - yoe / 100) in
    let mp = (5 * doy + 2) / 153 in
    let month : ℕ = if ltb mp 10 then mp + 3 else mp - 9 in
    let year : ℤ = plus (times_400 (div_floor z 146097)) (if leb month 2 then yoe + 1 else yoe) in
    at year month (doy - (153 * mp + 2) / 5 + 1) 0 0 0

-- `time.UnixMilli(ms).UTC()`
unfoldable pub unix_milli : ℤ → Time
unfolding date_of_day
unix_milli ms =
    let of_day = mod_floor ms 86400000 in
    let date = date_of_day (div_floor ms 86400000) in
    record (at_second (of_day / 1000) date) { nano = of_day % 1000 * 1000000 }
