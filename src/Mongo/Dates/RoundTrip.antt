-- ===== src/Mongo/Dates/RoundTrip.antt =====
-- What mongo/datetime.go reads of what it wrote.
use core_shared.Base.{
  ℕ, ◌<◌, Text, true, false, Option, some, List, [], ◌∷◌, ◌++◌, ℤ, pos, ◌≡◌, ◌∙◌, ap, sym, refl,
  arith, is_empty, ltb,
}
use core_shared.Returns.{ok}
use core_shared.Calendar.{Time, IsValid, at, is_zero}
use mathlib.Core.Path.{subst}
use core_shared.Calendar.Layout.{
  Element, literal, clock, Layout, format, dashed_date, rfc3339, date_time_layout, date_only_layout,
  time_only_layout, four_digits,
}
use core_shared.Calendar.Reading.{parse}
use core_shared.Calendar.Reading.RoundTrip.{parse-date_time, parse-date_only, parse-time_only}
use core_shared.Mongo.Dates.{
  quoted, trim_quotes, before_quote, or_whole, first_parse, or_error, or_later, parse_flexible_time,
}
use core_shared.Mongo.Dates.DateTimes
use core_shared.Mongo.Dates.DateOnlys
use core_shared.Mongo.Dates.TimeOnlys

before_quote-append : (s : Text) → before_quote (s ++ b'"' ∷ []) ≡ some s
unfolding before_quote
before_quote-append [] = refl
before_quote-append (c ∷ []) = refl
before_quote-append (c ∷ d ∷ s) = rw (before_quote-append (d ∷ s), before_quote)

trim_quotes-quoted : (s : Text) → trim_quotes (quoted s) ≡ s
unfolding trim_quotes
trim_quotes-quoted s = ap (or_whole (quoted s)) (before_quote-append s)

four_digits-is_empty : (y : ℕ) (rest : Text) → y < 10000 → is_empty (four_digits y ++ rest) ≡ false
unfolding four_digits
four_digits-is_empty y rest h = let small : ltb y 10000 ≡ true = ground arith in rw small

module _ (quote : Text → Text) where
  -- The first layout is tried first.
  parse_flexible_time-primary :
      (s : Text) (primary : Layout) (t : Time)
      → parse primary s ≡ some t
      → is_empty s ≡ false
      → parse_flexible_time quote s primary ≡ ok t
  unfolding parse_flexible_time
  parse_flexible_time-primary [] primary t e given = cc
  parse_flexible_time-primary (c ∷ s) primary t e given =
      ap
        (λ (r : Option Time). or_error quote (c ∷ s) (
          or_later r (
            first_parse
              (rfc3339 ∷ rfc3339 ∷ date_time_layout ∷ date_only_layout ∷ time_only_layout ∷ [])
              (c ∷ s))))
        e

  parse_flexible_time-quoted :
      (s : Text) (primary : Layout) (t : Time)
      → parse primary s ≡ some t
      → is_empty s ≡ false
      → parse_flexible_time quote (trim_quotes (quoted s)) primary ≡ ok t
  parse_flexible_time-quoted s primary t e given =
      ap (λ (x : Text). parse_flexible_time quote x primary) (trim_quotes-quoted s)
      ∙ parse_flexible_time-primary s primary t e given

module _ (t : Time) (y : ℕ) (v : IsValid t y) where
  dated-is_empty : (es : List Element) → y < 10000 → is_empty (format (dashed_date es) t) ≡ false
  unfolding format
  dated-is_empty es h =
      subst (λ (z : ℤ). is_empty (format (dashed_date es) (record t { year = z })) ≡ false)
        (sym v.in_year) (four_digits-is_empty y _ h)

module _ (quote : Text → Text) (as_time : ℤ → Time) (Oid : Type 0) (t : Time) (y : ℕ)
    (v : IsValid t y) where
  -- What `DateTime` writes of a time from the years 0 to 9999, into BSON and into JSON, it reads
  -- as the same time to the second.
  pub date_times_round_trip :
      y < 10000
      → (DateTimes.unmarshal_bson_value quote as_time (DateTimes.marshal_bson_value {Oid = Oid} t)
          ≡ ok (record t { nano = 0 }))
        × (DateTimes.unmarshal_json quote (DateTimes.marshal_json t) ≡ ok (record t { nano = 0 }))
  unfolding DateTimes.unmarshal_bson_value DateTimes.marshal_bson_value DateTimes.unmarshal_json
      DateTimes.marshal_json
  date_times_round_trip h = (
    parse_flexible_time-primary quote (format date_time_layout.elements t) date_time_layout _
        (parse-date_time t y v h) (dated-is_empty t y v (literal b' ' ∷ clock) h),
    parse_flexible_time-quoted quote (format date_time_layout.elements t) date_time_layout _
        (parse-date_time t y v h) (dated-is_empty t y v (literal b' ' ∷ clock) h),
  )

  -- What `DateOnly` writes of a time from the years 0 to 9999, into BSON and into JSON, it reads
  -- as the midnight at which that day starts.
  pub date_onlys_round_trip :
      y < 10000
      → (DateOnlys.unmarshal_bson_value quote as_time (DateOnlys.marshal_bson_value {Oid = Oid} t)
          ≡ ok (record t { hour = 0; minute = 0; second = 0; nano = 0 }))
        × (DateOnlys.unmarshal_json quote (DateOnlys.marshal_json t)
            ≡ ok (record t { hour = 0; minute = 0; second = 0; nano = 0 }))
  unfolding DateOnlys.unmarshal_bson_value DateOnlys.marshal_bson_value DateOnlys.unmarshal_json
      DateOnlys.marshal_json
  date_onlys_round_trip h = (
    parse_flexible_time-primary quote (format date_only_layout.elements t) date_only_layout _
        (parse-date_only t y v h) (dated-is_empty t y v [] h),
    parse_flexible_time-quoted quote (format date_only_layout.elements t) date_only_layout _
        (parse-date_only t y v h) (dated-is_empty t y v [] h),
  )

  -- What `TimeOnly` writes of a time it reads with the same clock to the second, on the first of
  -- January of the year 0, which is never the zero time: not even if the zero time was written.
  pub time_onlys_round_trip :
      (TimeOnlys.unmarshal_bson_value quote as_time (TimeOnlys.marshal_bson_value {Oid = Oid} t)
        ≡ ok (at (pos 0) 1 1 t.hour t.minute t.second))
      × (TimeOnlys.unmarshal_json quote (TimeOnlys.marshal_json t)
          ≡ ok (at (pos 0) 1 1 t.hour t.minute t.second))
      × (is_zero (at (pos 0) 1 1 t.hour t.minute t.second) ≡ false)
  unfolding TimeOnlys.unmarshal_bson_value TimeOnlys.marshal_bson_value TimeOnlys.unmarshal_json
      TimeOnlys.marshal_json is_zero
  time_onlys_round_trip = (
    parse_flexible_time-primary quote (format time_only_layout.elements t) time_only_layout _
        (parse-time_only t y v) refl,
    parse_flexible_time-quoted quote (format time_only_layout.elements t) time_only_layout _
        (parse-time_only t y v) refl,
    refl,
  )
