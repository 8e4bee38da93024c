-- ===== src/Calendar/Days.antt =====
-- Moves by days and seconds keep a date of the calendar and a clock.
use core_shared.Base.{
  pos, ◌≡◌, ℕ, zero, suc, ℤ, ◌+◌, ◌-◌, ◌/◌, ◌%◌, ◌≤◌, ◌<◌, Bool-cases, inl, inr, ltb, arith,
}
use core_shared.Calendar.{
  zero_time, IsValid, Time, days_in, next_year, last_year, next_day, last_day, times, second_of_day,
  at_second, seconds_back, seconds_forth,
}

-- A date of the calendar and a clock; the year may be below 0.
pub record IsTime (t : Time) : Type 0 where
  pub in_month : (1 ≤ t.month) × (t.month ≤ 12)
  pub in_day : (1 ≤ t.day) × (t.day ≤ days_in t.month t.year)
  pub in_hour : t.hour < 24
  pub in_minute : t.minute < 60
  pub in_second : t.second < 60
  pub in_nano : t.nano < 1000000000

days_in-ge_one : (m : ℕ) (y : ℤ) → 1 ≤ days_in m y
unfolding days_in
days_in-ge_one m y = ground arith

pub on_date :
    (t : Time) (y : ℤ) (m d : ℕ)
    → IsTime t
    → (1 ≤ m) × (m ≤ 12)
    → (1 ≤ d) × (d ≤ days_in m y)
    → IsTime (record t { year = y; month = m; day = d })
on_date t y m d v in_month in_day = record {
  in_month = in_month;
  in_day = in_day;
  in_hour = v.in_hour;
  in_minute = v.in_minute;
  in_second = v.in_second;
  in_nano = v.in_nano;
}

-- The days before and after.
next_day-IsTime : (t : Time) → IsTime t → IsTime (next_day t)
unfolding next_day days_in
next_day-IsTime t v = elim (Bool-cases (ltb t.day (days_in t.month t.year))) [
  | inl inside ↦
      rw inside
        (on_date t t.year t.month (t.day + 1) v v.in_month (omega arith, ground (arith, inside)))
  | inr at_end ↦ rw at_end (elim (Bool-cases (ltb t.month 12)) [
    | inl early ↦ rw early (
        on_date t t.year (t.month + 1) 1 v (omega arith, ground (arith, early))
          (omega arith, days_in-ge_one (t.month + 1) t.year))
    | inr december ↦
        rw december
          (on_date t (next_year t.year) 1 1 v (omega arith, omega arith) (omega arith, omega arith))
  ])
]

last_day-IsTime : (t : Time) → IsTime t → IsTime (last_day t)
unfolding last_day days_in
last_day-IsTime t v = elim (Bool-cases (ltb 1 t.day)) [
  | inl inside ↦
      rw inside
        (on_date t t.year t.month (t.day - 1) v v.in_month (ground (arith, inside), omega arith))
  | inr at_start ↦ rw at_start (elim (Bool-cases (ltb 1 t.month)) [
    | inl late ↦ rw late (
        on_date t t.year (t.month - 1) (days_in (t.month - 1) t.year) v
          (ground (arith, late), omega arith) (days_in-ge_one (t.month - 1) t.year, omega arith))
    | inr january ↦
        rw january (
          on_date t (last_year t.year) 12 31 v (omega arith, omega arith)
            (omega arith, omega arith))
  ])
]

times-IsTime :
    (f : Time → Time) (n : ℕ) (t : Time)
    → ((u : Time) → IsTime u → IsTime (f u))
    → IsTime t
    → IsTime (times n f t)
unfolding times
times-IsTime f zero t step v = v
times-IsTime f (suc n) t step v = times-IsTime f n (f t) step (step t v)

pub at_second-IsTime : (s : ℕ) (t : Time) → s < 86400 → IsTime t → IsTime (at_second s t)
at_second-IsTime s t h v = record {
  in_month = v.in_month;
  in_day = v.in_day;
  in_hour = omega arith;
  in_minute = omega arith;
  in_second = omega arith;
  in_nano = v.in_nano;
}

pub seconds_back-IsTime : (n : ℕ) (t : Time) → IsTime t → IsTime (seconds_back n t)
unfolding seconds_back
seconds_back-IsTime n t v =
    let total = second_of_day t + 172800 - n in
    at_second-IsTime (total % 86400) (times (2 - total / 86400) last_day t) (omega arith)
      (times-IsTime last_day (2 - total / 86400) t last_day-IsTime v)

pub seconds_forth-IsTime : (n : ℕ) (t : Time) → IsTime t → IsTime (seconds_forth n t)
unfolding seconds_forth
seconds_forth-IsTime n t v =
    let total = second_of_day t + n in
    at_second-IsTime (total % 86400) (times (total / 86400) next_day t) (omega arith)
      (times-IsTime next_day (total / 86400) t next_day-IsTime v)

pub zero_time-IsTime : IsTime zero_time
unfolding days_in
zero_time-IsTime = record {
  in_month = (omega arith, omega arith);
  in_day = (omega arith, omega arith);
  in_hour = omega arith;
  in_minute = omega arith;
  in_second = omega arith;
  in_nano = omega arith;
}

pub IsTime-IsValid : (t : Time) (y : ℕ) → IsTime t → t.year ≡ pos y → IsValid t y
IsTime-IsValid t y v e = record {
  in_year = e;
  in_month = v.in_month;
  in_day = v.in_day;
  in_hour = v.in_hour;
  in_minute = v.in_minute;
  in_second = v.in_second;
}
