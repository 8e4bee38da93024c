-- ===== src/Mongo/Patterns/Meaning.antt =====
-- What the patterns of mongo/bsonutil.go say, read as regular expressions.
use core_shared.Base.{
  ℕ, Text, Bool, true, false, Bool-cases, Option, none, some, inl, inr, [], ◌∷◌, ◌++◌, ◌==◌, ◌&&◌,
  is_empty, if◌then◌else◌, ◌≡◌, ◌∙◌, ap, sym, refl, arith, append-nil,
}
use core_shared.Mongo.Patterns.{is_special, quote_meta, starts_with, ends_with, contains}

-- A pattern that is a literal text between anchors, if there are any.
pub record Literal : Type 0 where
  pub at_start : Bool
  pub literal : Text
  pub at_end : Bool

abbrev pub with_byte : ℕ → Option (Text × Bool) → Option (Text × Bool)
with_byte c none = none
with_byte c (some (s, at_end)) = some (c ∷ s, at_end)

-- A special byte stands for itself behind a backslash only; `$` at the end is an anchor. None is
-- any other pattern. The first argument says that a backslash stands before the text.
unfoldable pub read_literal : Bool → Text → Option (Text × Bool)
read_literal false [] = some ([], false)
read_literal true [] = none
read_literal true (c ∷ s) =
    let rest = with_byte c (read_literal false s) in if is_special c then rest else none
read_literal false (c ∷ s) =
    let escaped = read_literal true s in
    let rest = with_byte c (read_literal false s) in
    if c == b'\\'
    then escaped
    else if c == b'$' && is_empty s
    then some ([], true)
    else if is_special c
    then none
    else rest

abbrev pub anchored : Bool → Option (Text × Bool) → Option Literal
anchored at_start none = none
anchored at_start (some (s, at_end)) =
    some (record { at_start = at_start; literal = s; at_end = at_end })

unfoldable pub read_pattern : Text → Option Literal
unfolding read_literal
read_pattern [] = anchored false (some ([], false))
read_pattern (c ∷ s) =
    if c == b'^'
    then anchored true (read_literal false s)
    else anchored false (read_literal false (c ∷ s))

abbrev pub end_text : Bool → Text
end_text true = b'$' ∷ []
end_text false = []

not_special :
    (c : ℕ)
    → is_special c ≡ false
    → ((c == b'\\') ≡ false) × ((c == b'$') ≡ false) × ((c == b'^') ≡ false)
unfolding is_special
not_special c h = ground arith

module _ (c : ℕ) (at_end : Bool) (v : Text) where
  abbrev tail : Text
  tail = quote_meta v ++ end_text at_end

  read_special :
      is_special c ≡ true
      → read_literal false (b'\\' ∷ c ∷ tail) ≡ with_byte c (read_literal false tail)
  unfolding read_literal
  read_special special = rw special

  read_plain :
      is_special c ≡ false → read_literal false (c ∷ tail) ≡ with_byte c (read_literal false tail)
  unfolding read_literal
  read_plain plain = let others = not_special c plain in rw (others.0, others.1, plain)

read_literal-quote_meta :
    (v : Text) (at_end : Bool)
    → read_literal false (quote_meta v ++ end_text at_end) ≡ some (v, at_end)
unfolding read_literal quote_meta
read_literal-quote_meta [] true = refl
read_literal-quote_meta [] false = refl
read_literal-quote_meta (c ∷ v) at_end = elim (Bool-cases (is_special c)) [
  | inl special ↦
      rw special
        (read_special c at_end v special ∙ ap (with_byte c) (read_literal-quote_meta v at_end))
  | inr plain ↦
      rw plain (read_plain c at_end v plain ∙ ap (with_byte c) (read_literal-quote_meta v at_end))
]

-- A quoted text does not start with an anchor.
read_pattern-quote_meta :
    (v : Text) (at_end : Bool)
    → read_pattern (quote_meta v ++ end_text at_end) ≡ anchored false (some (v, at_end))
unfolding read_pattern quote_meta
read_pattern-quote_meta [] true = refl
read_pattern-quote_meta [] false = refl
read_pattern-quote_meta (c ∷ v) at_end = elim (Bool-cases (is_special c)) [
  | inl special ↦ rw special (
      ap (anchored false)
        (read_special c at_end v special ∙ ap (with_byte c) (read_literal-quote_meta v at_end)))
  | inr plain ↦
      rw (plain, (not_special c plain).2)
        (ap (anchored false)
          (read_plain c at_end v plain ∙ ap (with_byte c) (read_literal-quote_meta v at_end)))
]

-- Whatever bytes the value has, the patterns of the three filters are that literal value, with
-- an anchor at the start for `StartsWith`, at the end for `EndsWith` and with none for
-- `Contains`: no byte of the value has the meaning of an operator.
pub patterns_lem :
    (field value : Text)
    → (read_pattern (starts_with field value).pattern
        ≡ some (record { at_start = true; literal = value; at_end = false }))
      × (read_pattern (ends_with field value).pattern
          ≡ some (record { at_start = false; literal = value; at_end = true }))
      × (read_pattern (contains field value).pattern
          ≡ some (record { at_start = false; literal = value; at_end = false }))
unfolding starts_with ends_with contains read_pattern
patterns_lem field value = (
  ap (anchored true) (at_once value),
  read_pattern-quote_meta value true,
  ap read_pattern (sym (append-nil (quote_meta value))) ∙ read_pattern-quote_meta value false,
)
  where
    at_once : (v : Text) → read_literal false (quote_meta v) ≡ some (v, false)
    at_once v =
        ap (read_literal false) (sym (append-nil (quote_meta v))) ∙ read_literal-quote_meta v false
