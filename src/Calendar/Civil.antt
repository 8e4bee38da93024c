-- ===== src/Calendar/Civil.antt =====
-- The date that is computed from the number of a day is a date of the calendar.
use core_shared.Base.{
  ℕ, zero, suc, ℤ, pos, negsuc, sub_ℕ, ◌+◌, ◌-◌, ◌*◌, ◌/◌, ◌%◌, ◌≤◌, ◌<◌, ◌≡◌, ◌⊎◌, inl, inr, ◌∙◌,
  sym, refl, true, false, Bool-cases, ◌==◌, ltb, leb, not, ◌&&◌, ◌||◌, if◌then◌else◌, arith,
}
use mathlib.Core.Path.{subst}
use core_shared.Calendar.{
  magnitude, is_leap, days_in, div_floor, mod_floor, plus, times_400, date_of_day, unix_milli,
}
use core_shared.Calendar.Days.{IsTime, at_second-IsTime}

-- The year within an era of 400 years, for a day of the era.
abbrev year_of_era : ℕ → ℕ
year_of_era d = (d - d / 1460 + d / 36524 - d / 146096) / 365

-- The days before a year of the era.
abbrev days_before : ℕ → ℕ
days_before y = 365 * y + y / 4 - y / 100

module _ (d y : ℕ) (in_era : d < 146097) (year : y ≡ year_of_era d) where
  year-lt : y < 400
  year-lt = omega arith

  days_before-le : days_before y ≤ d
  days_before-le = omega arith

  day_of_year-le : d - days_before y ≤ 365
  day_of_year-le = omega arith

  -- A year that starts in March has the day 365 only before a February of a leap year.
  last_day-leap_four : d - days_before y ≡ 365 → (y + 1) % 4 ≡ 0
  last_day-leap_four e = omega arith

  last_day-leap_hundred : d - days_before y ≡ 365 → (y + 1) % 100 ≡ 0 → (y + 1) % 400 ≡ 0
  last_day-leap_hundred e k = omega arith

leap_test : (a b c : ℕ) → a ≡ 0 → (b ≡ 0 → c ≡ 0) → (a == 0 && (not (b == 0) || c == 0)) ≡ true
leap_test a zero c four hundred = ground (arith, hundred refl)
leap_test a (suc b) c four hundred = ground arith

is_leap-true :
    (y : ℤ)
    → magnitude y % 4 ≡ 0
    → (magnitude y % 100 ≡ 0 → magnitude y % 400 ≡ 0)
    → is_leap y ≡ true
unfolding is_leap
is_leap-true y four hundred =
    leap_test (magnitude y % 4) (magnitude y % 100) (magnitude y % 400) four hundred

magnitude-sub_ℕ : (m n : ℕ) → m ≤ n → magnitude (sub_ℕ m n) ≡ n - m
magnitude-sub_ℕ m n h = ground arith

-- The rule of leap years does not change with the era, nor before the year 0.
is_leap-plus :
    (era : ℤ) (n : ℕ)
    → n ≤ 400
    → n % 4 ≡ 0
    → (n % 100 ≡ 0 → n % 400 ≡ 0)
    → is_leap (plus (times_400 era) n) ≡ true
is_leap-plus (pos k) n h four hundred =
    is_leap-true (pos (k * 400 + n)) (omega arith) (λ e. omega (arith, hundred (omega arith)))
is_leap-plus (negsuc k) n h four hundred =
    let size : magnitude (sub_ℕ n (k * 400 + 399 + 1)) ≡ k * 400 + 400 - n =
      magnitude-sub_ℕ n (k * 400 + 399 + 1) (omega arith) ∙ omega arith in
    is_leap-true (sub_ℕ n (k * 400 + 399 + 1)) (omega (arith, size))
      (λ e. omega (arith, size, hundred (omega (arith, size, e))))

-- The months from March on, from a day of the year that starts in March.
module _ (day_of_year m : ℕ) (in_year : day_of_year ≤ 365)
    (month : m ≡ (5 * day_of_year + 2) / 153) where
  month-le : m ≤ 11
  month-le = omega arith

  day-le : day_of_year - (153 * m + 2) / 5 + 1 ≤ 31
  day-le = omega arith

  short_month-le : (m ≡ 1) ⊎ (m ≡ 3) ⊎ (m ≡ 6) ⊎ (m ≡ 8) → day_of_year - (153 * m + 2) / 5 + 1 ≤ 30
  short_month-le e = omega arith

  february-le : m ≡ 11 → day_of_year - (153 * m + 2) / 5 + 1 ≤ 29
  february-le e = omega arith

  common_february-le : m ≡ 11 → day_of_year < 365 → day_of_year - (153 * m + 2) / 5 + 1 ≤ 28
  common_february-le e h = omega arith

abbrev month_of : ℕ → ℕ
month_of m = if ltb m 10 then m + 3 else m - 9

month_of-range : (m : ℕ) → m ≤ 11 → (1 ≤ month_of m) × (month_of m ≤ 12)
month_of-range m h = ground arith

february-ge : (d : ℕ) (y : ℤ) → d ≤ 29 → (is_leap y ≡ false → d ≤ 28) → d ≤ days_in 2 y
unfolding days_in
february-ge d y february common = elim (Bool-cases (is_leap y)) [
  | inl leap ↦ rw leap february
  | inr short ↦ rw short (common short)
]

other_month-ge :
    (m d : ℕ) (y : ℤ)
    → ¬ (m ≡ 2)
    → d ≤ 31
    → ((m ≡ 4) ⊎ (m ≡ 6) ⊎ (m ≡ 9) ⊎ (m ≡ 11) → d ≤ 30)
    → d ≤ days_in m y
unfolding days_in
other_month-ge m d y other long short = elim (Bool-cases (m == 4 || m == 6 || m == 9 || m == 11)) [
  | inl is_short ↦ ground (arith, other, is_short, short (ground (arith, is_short)))
  | inr is_long ↦ ground (arith, other, is_long, long)
]

short_month :
    (m : ℕ)
    → m ≤ 11
    → (month_of m ≡ 4) ⊎ (month_of m ≡ 6) ⊎ (month_of m ≡ 9) ⊎ (month_of m ≡ 11)
    → (m ≡ 1) ⊎ (m ≡ 3) ⊎ (m ≡ 6) ⊎ (m ≡ 8)
short_month m h e = ground arith

mod_floor-lt : (z : ℤ) → mod_floor z 146097 < 146097
mod_floor-lt (pos n) = omega arith
mod_floor-lt (negsuc n) = omega arith

of_day-lt : (ms : ℤ) → mod_floor ms 86400000 < 86400000
of_day-lt (pos n) = omega arith
of_day-lt (negsuc n) = omega arith

-- The year starts in January, so that January and February are in the next one.
early_year :
    (month y : ℕ) (era : ℤ)
    → month ≡ 2
    → plus (times_400 era) (if leb month 2 then y + 1 else y) ≡ plus (times_400 era) (y + 1)
early_year month y era e = rw e

-- The parts of a date by the number of its day in an era of 400 years.
module _ (d y day_of_year m : ℕ) (in_era : d < 146097) (year : y ≡ year_of_era d)
    (of_year : day_of_year ≡ d - days_before y) (month : m ≡ (5 * day_of_year + 2) / 153) where
  in_year : day_of_year ≤ 365
  in_year = omega (arith, day_of_year-le d y in_era year)

  common_year-lt : (era : ℤ) → is_leap (plus (times_400 era) (y + 1)) ≡ false → day_of_year < 365
  common_year-lt era common = elim (Bool-cases (ltb day_of_year 365)) [
    | inl before ↦ ground (arith, before)
    | inr at_last ↦
        let e : d - days_before y ≡ 365 = ground (arith, at_last, in_year, of_year) in
        let leap =
          is_leap-plus era (y + 1) (omega (arith, year-lt d y in_era year))
            (last_day-leap_four d y in_era year e) (last_day-leap_hundred d y in_era year e) in
        absurd (cc)
  ]

  day-days_in :
      (era z : ℤ)
      → (month_of m ≡ 2 → z ≡ plus (times_400 era) (y + 1))
      → day_of_year - (153 * m + 2) / 5 + 1 ≤ days_in (month_of m) z
  day-days_in era z early = elim (Bool-cases (month_of m == 2)) [
    | inl second ↦
        let february : month_of m ≡ 2 = ground (arith, second) in
        let eleven : m ≡ 11 = ground (arith, second, month-le day_of_year m in_year month) in
        subst (λ n. day_of_year - (153 * m + 2) / 5 + 1 ≤ days_in n z) (sym february)
          (february-ge (day_of_year - (153 * m + 2) / 5 + 1) z
            (february-le day_of_year m in_year month eleven)
            (λ common.
              common_february-le day_of_year m in_year month eleven
                (common_year-lt era (subst (λ v. is_leap v ≡ false) (early february) common))))
    | inr other ↦
        other_month-ge (month_of m) (day_of_year - (153 * m + 2) / 5 + 1) z (ground (arith, other))
          (day-le day_of_year m in_year month)
          (λ e.
            short_month-le day_of_year m in_year month
              (short_month m (month-le day_of_year m in_year month) e))
  ]

date_of_day-IsTime : (days : ℤ) → IsTime (date_of_day days)
unfolding date_of_day
date_of_day-IsTime days =
    let z = plus days 719468 in
    let d = mod_floor z 146097 in
    let y = year_of_era d in
    let day_of_year = d - days_before y in
    let m = (5 * day_of_year + 2) / 153 in
    let of_year : day_of_year ≤ 365 = in_year d y day_of_year m (mod_floor-lt z) refl refl refl in
    record {
      in_month = month_of-range m (month-le day_of_year m of_year refl);
      in_day = (
        omega arith,
        day-days_in d y day_of_year m (mod_floor-lt z) refl refl refl (div_floor z 146097) _
            (early_year (month_of m) y (div_floor z 146097)),
      );
      in_hour = omega arith;
      in_minute = omega arith;
      in_second = omega arith;
      in_nano = omega arith;
    }

-- A native date of the driver, in milliseconds before or after 1970.
pub unix_milli-IsTime : (ms : ℤ) → IsTime (unix_milli ms)
unfolding unix_milli
unix_milli-IsTime ms =
    let of_day = mod_floor ms 86400000 in
    let date = date_of_day (div_floor ms 86400000) in
    let whole : of_day < 86400000 = of_day-lt ms in
    let v =
      at_second-IsTime (of_day / 1000) date (omega (arith, whole))
        (date_of_day-IsTime (div_floor ms 86400000)) in
    record {
      in_month = v.in_month;
      in_day = v.in_day;
      in_hour = v.in_hour;
      in_minute = v.in_minute;
      in_second = v.in_second;
      in_nano = omega arith;
    }
