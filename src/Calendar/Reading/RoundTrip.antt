-- ===== src/Calendar/Reading/RoundTrip.antt =====
-- What is read of a time that was written in one of the layouts.
use core_shared.Base.{
  ℕ, ◌+◌, ◌/◌, ◌%◌, ◌≤◌, ◌<◌, Text, true, false, Option, some, List, [], ◌∷◌, ◌++◌, ltb, leb,
  is_digit, ℤ, pos, ◌≡◌, ◌∙◌, ap, sym, refl, arith,
}
use mathlib.Core.Path.{subst}
use core_shared.Calendar.{at, Time, IsValid, days_in}
use core_shared.Calendar.Layout.{
  Element, year, month, day, hour, minute, second, literal, clock, dashed_date, two_digits,
  four_digits, format, date_time_layout, date_only_layout, time_only_layout,
}
use core_shared.Calendar.Reading.{
  Fields, no_fields, read_two, read_one_or_two, read_four, read_fraction, read_element,
  read_elements, time_of, parse, with_number, with_fraction, continued, from_fields, finished,
}

is_digit-low : (n : ℕ) → n < 10 → is_digit (b'0' + n) ≡ true
is_digit-low n h = ground arith

read_two-two_digits :
    (n : ℕ) (rest : Text) → n < 100 → read_two (two_digits n ++ rest) ≡ some (n, rest)
unfolding read_two two_digits
read_two-two_digits n rest h =
    rw (is_digit-low (n / 10) (omega arith), is_digit-low (n % 10) (omega arith))
      (ap (λ (k : ℕ). some (k, rest)) (omega arith))

read_one_or_two-two_digits :
    (n : ℕ) (rest : Text) → n < 100 → read_one_or_two (two_digits n ++ rest) ≡ some (n, rest)
unfolding read_one_or_two two_digits
read_one_or_two-two_digits n rest h =
    rw (is_digit-low (n / 10) (omega arith), is_digit-low (n % 10) (omega arith))
      (ap (λ (k : ℕ). some (k, rest)) (omega arith))

read_four-four_digits :
    (n : ℕ) (rest : Text) → n < 10000 → read_four (four_digits n ++ rest) ≡ some (n, rest)
unfolding read_four four_digits
read_four-four_digits n rest h =
    let small : ltb n 10000 ≡ true = ground arith in
    rw
      (
        small,
        is_digit-low (n / 1000) (omega arith),
        is_digit-low (n / 100 % 10) (omega arith),
        is_digit-low (n / 10 % 10) (omega arith),
        is_digit-low (n % 10) (omega arith),
      )
      (ap (λ (k : ℕ). some (k, rest)) (omega arith))

numbered :
    {n : ℕ} {s : Text} (low high : ℕ) (put : ℕ → Fields) {r : Option (ℕ × Text)}
    → r ≡ some (n, s)
    → low ≤ n
    → n ≤ high
    → with_number r low high put ≡ some (put n, s)
numbered low high put e h k = rw e (ground arith)

module _ (f : Fields) (n : ℕ) (rest : Text) where
  read_year :
      n < 10000 → read_element year f (four_digits n ++ rest) ≡ some (record f { year = n }, rest)
  unfolding read_element
  read_year h =
      numbered 0 9999 (λ y. record f { year = y }) (read_four-four_digits n rest h) (omega arith)
        (omega arith)

  read_month :
      1 ≤ n
      → n ≤ 12
      → read_element month f (two_digits n ++ rest) ≡ some (record f { month = n }, rest)
  unfolding read_element
  read_month h k =
      numbered 1 12 (λ m. record f { month = m }) (read_two-two_digits n rest (omega arith)) h k

  read_day : n < 100 → read_element day f (two_digits n ++ rest) ≡ some (record f { day = n }, rest)
  unfolding read_element
  read_day h =
      numbered 0 99 (λ d. record f { day = d }) (read_two-two_digits n rest h) (omega arith)
        (omega arith)

  read_hour :
      n < 24 → read_element hour f (two_digits n ++ rest) ≡ some (record f { hour = n }, rest)
  unfolding read_element
  read_hour h =
      numbered 0 23 (λ x. record f { hour = x }) (read_one_or_two-two_digits n rest (omega arith))
        (omega arith) (omega arith)

  read_minute :
      n < 60 → read_element minute f (two_digits n ++ rest) ≡ some (record f { minute = n }, rest)
  unfolding read_element
  read_minute h =
      numbered 0 59 (λ x. record f { minute = x }) (read_two-two_digits n rest (omega arith))
        (omega arith) (omega arith)

read_second :
    (f : Fields) (n : ℕ)
    → n < 60
    → read_element second f (two_digits n ++ []) ≡ some (record f { second = n; nano = 0 }, [])
unfolding read_element read_fraction
read_second f n h = ap with_fraction (
    numbered 0 59 (λ x. record f { second = x }) (read_two-two_digits n [] (omega arith))
      (omega arith) (omega arith))

-- A space of the layout, before the digits of a number.
read_space :
    (f : Fields) (n : ℕ) (rest : Text)
    → n < 100
    → read_element (literal b' ') f (b' ' ∷ (two_digits n ++ rest)) ≡ some (f, two_digits n ++ rest)
unfolding read_element two_digits
read_space f n rest h = ground arith

read_colon : (f : Fields) (s : Text) → read_element (literal b':') f (b':' ∷ s) ≡ some (f, s)
unfolding read_element
read_colon f s = refl

read_dash : (f : Fields) (s : Text) → read_element (literal b'-') f (b'-' ∷ s) ≡ some (f, s)
unfolding read_element
read_dash f s = refl

read_elements-cons :
    (e : Element) (es : List Element) (f f' : Fields) (s s' : Text)
    → read_element e f s ≡ some (f', s')
    → read_elements (e ∷ es) f s ≡ read_elements es f' s'
unfolding read_elements
read_elements-cons e es f f' s s' h = ap (continued (read_elements es)) h

read_elements-nil : (f : Fields) → read_elements [] f [] ≡ some (f, [])
unfolding read_elements
read_elements-nil f = refl

-- The time with the fields' date, and that with their clock.
abbrev dated : ℕ → Time → Fields → Fields
dated y t f = record f { year = y; month = t.month; day = t.day }

abbrev clocked : Time → Fields → Fields
clocked t f = record f { hour = t.hour; minute = t.minute; second = t.second; nano = 0 }

abbrev in_year : Time → ℕ → Time
in_year t y = record t { year = pos y }

days_in-le : (m : ℕ) (y : ℤ) → days_in m y ≤ 31
unfolding days_in
days_in-le m y = ground arith

module _ (t : Time) (y : ℕ) (v : IsValid t y) where
  day_small : t.day < 100
  day_small = omega (arith, v.in_day, days_in-le t.month t.year)

  read_clock :
      (f : Fields) → read_elements clock f (format clock (in_year t y)) ≡ some (clocked t f, [])
  unfolding format
  read_clock f =
      read_elements-cons hour _ f _ _ _ (read_hour f t.hour _ v.in_hour)
      ∙ read_elements-cons (literal b':') _ _ _ _ _ (read_colon _ _)
      ∙ read_elements-cons minute _ _ _ _ _ (read_minute _ t.minute _ v.in_minute)
      ∙ read_elements-cons (literal b':') _ _ _ _ _ (read_colon _ _)
      ∙ read_elements-cons second _ _ _ _ _ (read_second _ t.second v.in_second)
      ∙ read_elements-nil _

  read_date :
      (es : List Element) (f : Fields)
      → y < 10000
      → read_elements (dashed_date es) f (format (dashed_date es) (in_year t y))
        ≡ read_elements es (dated y t f) (format es (in_year t y))
  unfolding format
  read_date es f h =
      read_elements-cons year _ f _ _ _ (read_year f y _ h)
      ∙ read_elements-cons (literal b'-') _ _ _ _ _ (read_dash _ _)
      ∙ read_elements-cons month _ _ _ _ _ (read_month _ t.month _ v.in_month.0 v.in_month.1)
      ∙ read_elements-cons (literal b'-') _ _ _ _ _ (read_dash _ _)
      ∙ read_elements-cons day _ _ _ _ _ (read_day _ t.day _ day_small)

  read_space_clock :
      (f : Fields)
      → read_elements (literal b' ' ∷ clock) f (format (literal b' ' ∷ clock) (in_year t y))
        ≡ some (clocked t f, [])
  unfolding format
  read_space_clock f =
      read_elements-cons (literal b' ') _ _ _ _ _ (read_space f t.hour _ (omega (arith, v.in_hour)))
      ∙ read_clock f

  time_of_dated :
      (h mi se ns : ℕ)
      → time_of (record {
        year = y;
        month = t.month;
        day = t.day;
        hour = h;
        minute = mi;
        second = se;
        nano = ns;
      })
        ≡ some (record {
          year = pos y;
          month = t.month;
          day = t.day;
          hour = h;
          minute = mi;
          second = se;
          nano = ns;
        })
  unfolding time_of
  time_of_dated h mi se ns =
      let short : t.day ≤ days_in t.month (pos y) =
        subst (λ z. t.day ≤ days_in t.month z) v.in_year v.in_day.1 in
      let low : leb 1 t.day ≡ true = ground (arith, v.in_day.0) in
      let high : leb t.day (days_in t.month (pos y)) ≡ true = ground (arith, short) in
      rw (low, high)

  written : (es : List Element) → format es t ≡ format es (in_year t y)
  written es = ap (λ (z : ℤ). format es (record t { year = z })) v.in_year

  -- What is written in the layout of date and clock is read as the same time, to the second.
  pub parse-date_time :
      y < 10000
      → parse date_time_layout (format date_time_layout.elements t) ≡ some (record t { nano = 0 })
  unfolding parse
  parse-date_time h =
      ap (parse date_time_layout) (written date_time_layout.elements)
      ∙ ap (from_fields false)
          (read_date (literal b' ' ∷ clock) no_fields h ∙ read_space_clock (dated y t no_fields))
      ∙ ap (finished false []) (time_of_dated t.hour t.minute t.second 0)
      ∙ ap (λ (z : ℤ). some (record t { year = z; nano = 0 })) (sym v.in_year)

  -- What is written in the layout of the date is read as the start of the day.
  pub parse-date_only :
      y < 10000
      → parse date_only_layout (format date_only_layout.elements t)
        ≡ some (record t { hour = 0; minute = 0; second = 0; nano = 0 })
  unfolding parse format
  parse-date_only h =
      ap (parse date_only_layout) (written date_only_layout.elements)
      ∙ ap (from_fields false) (read_date [] no_fields h ∙ read_elements-nil _)
      ∙ ap (finished false []) (time_of_dated 0 0 0 0)
      ∙ ap (λ (z : ℤ). some (record t { year = z; hour = 0; minute = 0; second = 0; nano = 0 }))
          (sym v.in_year)

  -- What is written in the layout of the clock is read with the first of January of the year 0.
  pub parse-time_only :
      parse time_only_layout (format time_only_layout.elements t)
      ≡ some (at (pos 0) 1 1 t.hour t.minute t.second)
  unfolding parse time_of days_in
  parse-time_only =
      ap (parse time_only_layout) (written time_only_layout.elements)
      ∙ ap (from_fields false) (read_clock no_fields)
