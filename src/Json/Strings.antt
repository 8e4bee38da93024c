-- ===== src/Json/Strings.antt =====
-- The text of a JSON string determines the string, and where it ends.
use core_shared.Base.{
  ℕ, ◌+◌, ◌-◌, ◌*◌, Text, Option, none, some, [], ◌∷◌, ◌++◌, ◌==◌, ltb, if◌then◌else◌, append_assoc,
  ◌≡◌, ◌∙◌, ap, sym, refl, arith,
}
use core_shared.Json.{escape_byte, escape, quote}

abbrev hex_value : ℕ → ℕ
hex_value c = if ltb c b'a' then c - b'0' else c - b'a' + 10

-- The byte behind a backslash.
abbrev unescaped : ℕ → ℕ
unescaped d =
    if d == b'b'
    then 8
    else if d == b'f'
    then 12
    else if d == b'n'
    then 10
    else if d == b'r'
    then 13
    else if d == b't'
    then 9
    else d

abbrev read_hex : Text → Option (ℕ × Text)
read_hex (z ∷ o ∷ h ∷ l ∷ s) = some (hex_value h * 16 + hex_value l, s)
read_hex s = none

abbrev read_escape : Text → Option (ℕ × Text)
read_escape [] = none
read_escape (d ∷ s) = if d == b'u' then read_hex s else some (unescaped d, s)

-- The first byte of a string and the text behind it; none at the closing quote.
abbrev read_byte : Text → Option (ℕ × Text)
read_byte [] = none
read_byte (c ∷ s) = if c == b'"' then none else if c == b'\\' then read_escape s else some (c, s)

read_byte-escape_byte : (c : ℕ) (s : Text) → read_byte (escape_byte c ++ s) ≡ some (c, s)
unfolding escape_byte
read_byte-escape_byte c s = ground arith

byte_cancel : (c d : ℕ) (s t : Text) → escape_byte c ++ s ≡ escape_byte d ++ t → (c ≡ d) × (s ≡ t)
byte_cancel c d s t e =
    let same : ◌≡◌ {A = Option (ℕ × Text)} (some (c, s)) (some (d, t)) =
      sym (read_byte-escape_byte c s) ∙ ap read_byte e ∙ read_byte-escape_byte d t in
    (cc, cc)

not_closed : (c : ℕ) (s r : Text) → ¬ (b'"' ∷ r ≡ escape_byte c ++ s)
not_closed c s r e =
    let same : ◌≡◌ {A = Option (ℕ × Text)} none (some (c, s)) =
      ap read_byte e ∙ read_byte-escape_byte c s in
    absurd (cc)

escape_cancel : (s t r q : Text) → escape s ++ b'"' ∷ r ≡ escape t ++ b'"' ∷ q → (s ≡ t) × (r ≡ q)
unfolding escape
escape_cancel [] [] r q e = (refl, cc)
escape_cancel [] (c ∷ t) r q e =
    absurd (
      not_closed c (escape t ++ b'"' ∷ q) r
        (e ∙ append_assoc (escape_byte c) (escape t) (b'"' ∷ q)))
escape_cancel (c ∷ s) [] r q e = absurd (
    not_closed c (escape s ++ b'"' ∷ r) q
      (sym e ∙ append_assoc (escape_byte c) (escape s) (b'"' ∷ r)))
escape_cancel (c ∷ s) (d ∷ t) r q e =
    let (first, rest) = byte_cancel c d (escape s ++ b'"' ∷ r) (escape t ++ b'"' ∷ q) (
      sym (append_assoc (escape_byte c) (escape s) (b'"' ∷ r))
      ∙ e
      ∙ append_assoc (escape_byte d) (escape t) (b'"' ∷ q)) in
    let (behind, left) = escape_cancel s t r q rest in ((λ i. first i ∷ behind i), left)

pub quote-append : (s r : Text) → quote s ++ r ≡ b'"' ∷ (escape s ++ b'"' ∷ r)
unfolding quote
quote-append s r = ap (λ w. b'"' ∷ w) (append_assoc (escape s) (b'"' ∷ []) r)

tail_eq : {c : ℕ} {s t : Text} → c ∷ s ≡ c ∷ t → s ≡ t
tail_eq e = cc

-- Two strings with text behind them are the same only if both parts are.
pub quote_cancel : (s t r q : Text) → quote s ++ r ≡ quote t ++ q → (s ≡ t) × (r ≡ q)
quote_cancel s t r q e =
    escape_cancel s t r q (tail_eq (sym (quote-append s r) ∙ e ∙ quote-append t q))
