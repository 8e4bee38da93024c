-- ===== src/Json.antt =====
-- Values of package `encoding/json` as the code's structs become them, and the text that
-- `Marshal` writes for them: fields in the order of the struct, no spaces, and the escapes of
-- Go's string encoder. Bytes from 0x80 on are copied, as they are in valid UTF-8 (the encoder
-- also escapes U+2028 and U+2029, which this leaves as they are).
pub mod Decimal
pub mod Strings
use core_shared.Base.{
  ℕ, ◌+◌, ◌/◌, ◌%◌, Text, codes, Bool, true, false, [], ◌∷◌, ◌++◌, ◌==◌, ltb, ◌||◌, if◌then◌else◌,
}

mutual
  pub data Json : Type 0 where
    null : Json
    bool : Bool → Json
    num : ℕ → Json
    str : Text → Json
    arr : Items → Json
    obj : Fields → Json

  pub data Items : Type 0 where
    nil : Items
    item : Json → Items → Items

  pub data Fields : Type 0 where
    done : Fields
    field : Text → Json → Fields → Fields

abbrev pub hex_digit : ℕ → ℕ
hex_digit n = if ltb n 10 then b'0' + n else b'a' + n % 10

-- What the encoder writes for one byte of a string.
pub escape_byte : ℕ → Text
escape_byte c =
    if c == b'"'
    then codes "\\\""
    else if c == b'\\'
    then codes "\\\\"
    else if c == 8
    then codes "\\b"
    else if c == 12
    then codes "\\f"
    else if c == b'\n'
    then codes "\\n"
    else if c == 13
    then codes "\\r"
    else if c == b'\t'
    then codes "\\t"
    else if ltb c 32 || c == b'<' || c == b'>' || c == b'&'
    then codes "\\u00" ++ hex_digit (c / 16) ∷ hex_digit (c % 16) ∷ []
    else c ∷ []

pub escape : Text → Text
escape [] = []
escape (c ∷ s) = escape_byte c ++ escape s

pub quote : Text → Text
unfolding escape escape_byte
quote s = b'"' ∷ (escape s ++ b'"' ∷ [])

-- The decimal digits of a number, the last one first; the fuel is above the number of digits.
digits_up : ℕ → ℕ → Text
digits_up ℕ.zero n = []
digits_up (ℕ.suc f) n =
    let rest = digits_up f (n / 10) in (b'0' + n % 10) ∷ (if ltb n 10 then [] else rest)

reverse_onto : Text → Text → Text
reverse_onto [] out = out
reverse_onto (c ∷ s) out = reverse_onto s (c ∷ out)

-- `strconv.Itoa` on a number below 10 ^ 20.
unfoldable pub decimal : ℕ → Text
unfolding digits_up reverse_onto
decimal n = reverse_onto (digits_up 20 n) []

unfoldable mutual
  unfolding quote decimal

  pub render : Json → Text
  render null = codes "null"
  render (bool true) = codes "true"
  render (bool false) = codes "false"
  render (num n) = decimal n
  render (str s) = quote s
  render (arr xs) = b'[' ∷ (render_items xs ++ codes "]")
  render (obj fs) = b'{' ∷ (render_fields fs ++ codes "}")

  pub render_items : Items → Text
  render_items nil = []
  render_items (item x xs) = render x ++ render_more xs

  pub render_more : Items → Text
  render_more nil = []
  render_more (item x xs) = b',' ∷ (render x ++ render_more xs)

  pub render_fields : Fields → Text
  render_fields done = []
  render_fields (field k x fs) = quote k ++ b':' ∷ (render x ++ render_next fs)

  pub render_next : Fields → Text
  render_next done = []
  render_next (field k x fs) = b',' ∷ (quote k ++ b':' ∷ (render x ++ render_next fs))
