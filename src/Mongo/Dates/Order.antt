-- ===== src/Mongo/Dates/Order.antt =====
-- The order of the texts that mongo/datetime.go writes.
use core_shared.Base.{
  ℕ, ◌+◌, ◌/◌, ◌%◌, ◌<◌, Text, Bool, true, false, List, [], ◌∷◌, ◌++◌, ltb, ◌==◌, ◌||◌, ◌&&◌, ℤ,
  pos, negsuc, ◌≡◌, ◌∙◌, ap, refl, arith,
}
use core_shared.Calendar.{Time, IsValid}
use core_shared.Calendar.Layout.{
  Element, year, month, day, hour, minute, second, date_time_layout, date_only_layout,
  time_only_layout, format, two_digits, four_digits, year_text, literal,
}
use core_shared.Mongo.Dates.DateTimes
use core_shared.Mongo.Dates.DateOnlys
use core_shared.Mongo.Dates.TimeOnlys

-- One part is less, or equal and what comes behind it is less.
abbrev pub ordered : ℕ → ℕ → Bool → Bool
ordered a b rest = ltb a b || a == b && rest

-- The order of strings by their bytes.
unfoldable pub text_less : Text → Text → Bool
text_less [] [] = false
text_less [] (y ∷ b) = true
text_less (x ∷ a) [] = false
text_less (x ∷ a) (y ∷ b) = ordered x y (text_less a b)

abbrev pub ordered_ℤ : ℤ → ℤ → Bool → Bool
ordered_ℤ (pos a) (pos b) rest = ordered a b rest
ordered_ℤ (negsuc a) (negsuc b) rest = ordered b a rest
ordered_ℤ (pos a) (negsuc b) rest = false
ordered_ℤ (negsuc a) (pos b) rest = true

-- The orders of times to the second, of their days, and of their clocks.
abbrev pub is_before : Time → Time → Bool
is_before t u = ordered_ℤ t.year u.year (
    ordered t.month u.month (
      ordered t.day u.day
        (ordered t.hour u.hour (ordered t.minute u.minute (ordered t.second u.second false)))))

abbrev pub is_day_before : Time → Time → Bool
is_day_before t u = ordered_ℤ t.year u.year (ordered t.month u.month (ordered t.day u.day false))

abbrev pub is_clock_before : Time → Time → Bool
is_clock_before t u =
    ordered t.hour u.hour (ordered t.minute u.minute (ordered t.second u.second false))

ordered-shift : (a b : ℕ) (rest : Bool) → ordered (b'0' + a) (b'0' + b) rest ≡ ordered a b rest
ordered-shift a b rest = ground arith

ordered-digit :
    (a b : ℕ) (rest : Bool)
    → ordered (a / 10) (b / 10) (ordered (a % 10) (b % 10) rest) ≡ ordered a b rest
ordered-digit a b rest = ground arith

two_digits-less :
    (a b : ℕ) (r s : Text)
    → text_less (two_digits a ++ r) (two_digits b ++ s) ≡ ordered a b (text_less r s)
unfolding text_less two_digits
two_digits-less a b r s =
    ordered-shift (a / 10) (b / 10) _
    ∙ ap (ordered (a / 10) (b / 10)) (ordered-shift (a % 10) (b % 10) (text_less r s))
    ∙ ordered-digit a b (text_less r s)

-- Four digits, each behind the ones of a higher place.
ordered-four_digits :
    (a b : ℕ) (rest : Bool)
    → ordered (a / 1000) (b / 1000) (
        ordered
          (a / 100 % 10)
          (b / 100 % 10)
          (ordered (a / 10 % 10) (b / 10 % 10) (ordered (a % 10) (b % 10) rest)))
      ≡ ordered a b rest
ordered-four_digits a b rest =
    let hundreds : (n : ℕ) → n / 1000 ≡ n / 100 / 10 = λ n. omega arith in
    let tens : (n : ℕ) → n / 100 ≡ n / 10 / 10 = λ n. omega arith in
    let low : Bool = ordered (a % 10) (b % 10) rest in
    let middle : Bool = ordered (a / 10 % 10) (b / 10 % 10) low in
    rw (hundreds a, hundreds b)
      (ordered-digit (a / 100) (b / 100) middle
        ∙ rw (tens a, tens b) (ordered-digit (a / 10) (b / 10) low ∙ ordered-digit a b rest))

four_digits-less :
    (a b : ℕ) (r s : Text)
    → a < 10000
    → b < 10000
    → text_less (four_digits a ++ r) (four_digits b ++ s) ≡ ordered a b (text_less r s)
unfolding text_less four_digits
four_digits-less a b r s ha hb =
    let small_a : ltb a 10000 ≡ true = ground arith in
    let small_b : ltb b 10000 ≡ true = ground arith in
    rw (small_a, small_b)
      (shifted (a / 1000) (b / 1000) (
          shifted (a / 100 % 10) (b / 100 % 10)
            (shifted (a / 10 % 10) (b / 10 % 10) (ordered-shift (a % 10) (b % 10) (text_less r s))))
        ∙ ordered-four_digits a b (text_less r s))
  where
    shifted : (x y : ℕ) {p q : Bool} → p ≡ q → ordered (b'0' + x) (b'0' + y) p ≡ ordered x y q
    shifted x y {p} {q} e = ordered-shift x y p ∙ ap (ordered x y) e

year_text-less :
    (i j : ℤ) (a b : ℕ) (r s : Text)
    → i ≡ pos a
    → j ≡ pos b
    → a < 10000
    → b < 10000
    → text_less (year_text i ++ r) (year_text j ++ s) ≡ ordered_ℤ i j (text_less r s)
year_text-less i j a b r s ei ej ha hb = rw (ei, ej) (four_digits-less a b r s ha hb)

-- The order of two times by the elements of a layout.
abbrev pub by_elements : List Element → Time → Time → Bool
by_elements [] t u = false
by_elements (year ∷ es) t u = ordered_ℤ t.year u.year (by_elements es t u)
by_elements (month ∷ es) t u = ordered t.month u.month (by_elements es t u)
by_elements (day ∷ es) t u = ordered t.day u.day (by_elements es t u)
by_elements (hour ∷ es) t u = ordered t.hour u.hour (by_elements es t u)
by_elements (minute ∷ es) t u = ordered t.minute u.minute (by_elements es t u)
by_elements (second ∷ es) t u = ordered t.second u.second (by_elements es t u)
by_elements (literal c ∷ es) t u = by_elements es t u

module _ (t u : Time) (y z : ℕ) (v : IsValid t y) (w : IsValid u z) (hy : y < 10000)
    (hz : z < 10000) where
  part-less :
      (a b : ℕ) (es : List Element)
      → text_less (format es t) (format es u) ≡ by_elements es t u
      → text_less (two_digits a ++ format es t) (two_digits b ++ format es u)
        ≡ ordered a b (by_elements es t u)
  part-less a b es e = two_digits-less a b (format es t) (format es u) ∙ ap (ordered a b) e

  format-less : (es : List Element) → text_less (format es t) (format es u) ≡ by_elements es t u
  unfolding text_less format
  format-less [] = refl
  format-less (year ∷ es) =
      year_text-less t.year u.year y z _ _ v.in_year w.in_year hy hz
      ∙ ap (ordered_ℤ t.year u.year) (format-less es)
  format-less (month ∷ es) = part-less t.month u.month es (format-less es)
  format-less (day ∷ es) = part-less t.day u.day es (format-less es)
  format-less (hour ∷ es) = part-less t.hour u.hour es (format-less es)
  format-less (minute ∷ es) = part-less t.minute u.minute es (format-less es)
  format-less (second ∷ es) = part-less t.second u.second es (format-less es)
  format-less (literal c ∷ es) = ground (arith, format-less es)

  -- For times from the years 0 to 9999, the order byte by byte of the texts that `DateTime`,
  -- `DateOnly` and `TimeOnly` write is the order of the times to the second, of their days, and
  -- of their clocks.
  pub to_text-less :
      (text_less (DateTimes.to_text t) (DateTimes.to_text u) ≡ is_before t u)
      × (text_less (DateOnlys.to_text t) (DateOnlys.to_text u) ≡ is_day_before t u)
      × (text_less (TimeOnlys.to_text t) (TimeOnlys.to_text u) ≡ is_clock_before t u)
  unfolding DateTimes.to_text DateOnlys.to_text TimeOnlys.to_text
  to_text-less = (
    format-less date_time_layout.elements,
    format-less date_only_layout.elements,
    format-less time_only_layout.elements,
  )
