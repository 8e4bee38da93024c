-- ===== src/Camunda/BasicAuth.antt =====
-- What a gateway reads from the header that camunda/client.go sends for basic authentication.
use core_shared.Base.{
  ℕ, ◌*◌, ◌+◌, ◌/◌, ◌%◌, ◌-◌, ◌<◌, Text, codes, false, Option, none, some, [], ◌∷◌, ◌++◌, ◌==◌, leb,
  All, All-append, if◌then◌else◌, drop, has_prefix, is_empty, text_eq, ◌≡◌, ◌≢◌, ◌∙◌, ap, refl,
  arith,
}
use core_shared.Apperror.{Error}
use core_shared.Returns.{ok}
use core_shared.Http.HeaderMap.{Headers, look, look-put}
use core_shared.Camunda.{
  Config, OauthConfig, basic, apply_credentials, sextet, base64, basic_credentials,
}

-- The value of a character of the alphabet of RFC 4648.
abbrev sextet_of : ℕ → ℕ
sextet_of c =
    if leb b'a' c
    then c - b'a' + 26
    else if leb b'A' c
    then c - b'A'
    else if leb b'0' c
    then c - b'0' + 52
    else if c == b'+'
    then 62
    else 63

-- The bytes of a text in base64, from four characters at a time.
unfoldable decode64 : Text → Text
decode64 (a ∷ b ∷ c ∷ d ∷ s) =
    let first = sextet_of a * 4 + sextet_of b / 16 in
    let second = sextet_of b % 16 * 16 + sextet_of c / 4 in
    let rest = decode64 s in
    if d == b'='
    then if c == b'=' then first ∷ [] else first ∷ second ∷ []
    else first ∷ second ∷ (sextet_of c % 4 * 64 + sextet_of d) ∷ rest
decode64 s = []

sextet_of-sextet : (n : ℕ) → n < 64 → sextet_of (sextet n) ≡ n
sextet_of-sextet n h = ground arith

sextet-not_pad : (n : ℕ) → (sextet n == b'=') ≡ false
sextet-not_pad n = ground arith

-- Group by group, the bytes come back.
one_byte : (x : ℕ) → x < 256 → x / 4 * 4 + x % 4 * 16 / 16 ≡ x
one_byte x h = omega arith

first_byte : (x y : ℕ) → y < 256 → x / 4 * 4 + (x % 4 * 16 + y / 16) / 16 ≡ x
first_byte x y h = omega arith

last_byte : (x y : ℕ) → y < 256 → (x % 4 * 16 + y / 16) % 16 * 16 + y % 16 * 4 / 4 ≡ y
last_byte x y h = omega arith

second_byte :
    (x y z : ℕ)
    → y < 256
    → z < 256
    → (x % 4 * 16 + y / 16) % 16 * 16 + (y % 16 * 4 + z / 64) / 4 ≡ y
second_byte x y z h k = omega arith

third_byte : (y z : ℕ) → z < 256 → (y % 16 * 4 + z / 64) % 4 * 64 + z % 64 ≡ z
third_byte y z h = omega arith

abbrev pub IsByte : ℕ → Type 0
IsByte x = x < 256

decode64-base64 : (s : Text) → All IsByte s → decode64 (base64 s) ≡ s
unfolding decode64 base64
decode64-base64 [] h = refl
decode64-base64 (x ∷ []) (hx, h) =
    rw (sextet_of-sextet (x / 4) (omega arith), sextet_of-sextet (x % 4 * 16) (omega arith))
      (ap (λ n. n ∷ []) (one_byte x hx))
decode64-base64 (x ∷ y ∷ []) (hx, (hy, h)) =
    rw
      (
        sextet-not_pad (y % 16 * 4),
        sextet_of-sextet (x / 4) (omega arith),
        sextet_of-sextet (x % 4 * 16 + y / 16) (omega arith),
        sextet_of-sextet (y % 16 * 4) (omega arith),
      )
      (λ i. first_byte x y hy i ∷ last_byte x y hy i ∷ [])
decode64-base64 (x ∷ y ∷ z ∷ s) (hx, (hy, (hz, h))) =
    rw
      (
        sextet-not_pad (z % 64),
        sextet_of-sextet (x / 4) (omega arith),
        sextet_of-sextet (x % 4 * 16 + y / 16) (omega arith),
        sextet_of-sextet (y % 16 * 4 + z / 64) (omega arith),
        sextet_of-sextet (z % 64) (omega arith),
      )
      (λ i.
        first_byte x y hy i
        ∷ second_byte x y z hy hz i
        ∷ third_byte y z hz i
        ∷ decode64-base64 s h i)

-- User and password are on the two sides of the first colon.
abbrev on_left : ℕ → Option (Text × Text) → Option (Text × Text)
on_left c none = none
on_left c (some (user, pass)) = some (c ∷ user, pass)

unfoldable split_colon : Text → Option (Text × Text)
split_colon [] = none
split_colon (c ∷ s) = let rest = split_colon s in if c == b':' then some ([], s) else on_left c rest

-- RFC 7617, for a header that is there.
unfoldable pub read_basic : Text → Option (Text × Text)
unfolding split_colon decode64
read_basic header =
    if has_prefix header (codes "Basic ") then split_colon (decode64 (drop 6 header)) else none

abbrev pub IsNoColon : ℕ → Type 0
IsNoColon c = c ≢ b':'

split_colon-append :
    (user pass : Text) → All IsNoColon user → split_colon (user ++ b':' ∷ pass) ≡ some (user, pass)
unfolding split_colon
split_colon-append [] pass h = refl
split_colon-append (c ∷ user) pass (p, h) = ground (arith, split_colon-append user pass h)

read_basic-header :
    (user pass : Text)
    → All IsByte user
    → All IsByte pass
    → All IsNoColon user
    → read_basic (codes "Basic " ++ base64 (user ++ b':' ∷ pass)) ≡ some (user, pass)
unfolding read_basic has_prefix base64
read_basic-header user pass hu hp colon =
    ap split_colon (
      decode64-base64 (user ++ b':' ∷ pass)
        (All-append IsByte user (b':' ∷ pass) hu (omega arith, hp)))
    ∙ split_colon-append user pass colon

look-apply_credentials :
    (header : Text) (headers : Headers)
    → look (codes "Authorization") (apply_credentials header headers) ≡ header
unfolding text_eq
look-apply_credentials header headers =
    look-put (codes "Authorization") (codes "Authorization") header headers

module _ (oauth : OauthConfig → Option Error) (quote : Text → Text) where
  -- Where user and password are given, both consist of bytes, and the user has no colon, the
  -- configuration becomes credentials whose header, in the map that they are applied to, a gateway
  -- reads as exactly that user and that password: the scheme, base64 and the first colon undone.
  pub basic_credentials_round_trip :
      (cfg : Config) (headers : Headers)
      → is_empty cfg.username ≡ false
      → is_empty cfg.password ≡ false
      → All IsByte cfg.username
      → All IsByte cfg.password
      → All IsNoColon cfg.username
      → (header : Text) × (basic_credentials oauth quote cfg ≡ ok (some (basic header)))
        × (read_basic (look (codes "Authorization") (apply_credentials header headers))
            ≡ some (cfg.username, cfg.password))
  unfolding basic_credentials
  basic_credentials_round_trip cfg headers user pass hu hp colon = (
    codes "Basic " ++ base64 (cfg.username ++ b':' ∷ cfg.password),
    rw (user, pass) refl,
    ap read_basic (look-apply_credentials _ headers)
        ∙ read_basic-header cfg.username cfg.password hu hp colon,
  )
