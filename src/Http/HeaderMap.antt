-- ===== src/Http/HeaderMap.antt =====
-- `http.Header` with one value for each key, as `Set` leaves it, and the canonical form of keys.
use core_shared.Base.{
  ℕ, Text, codes, Bool, true, false, List, [], ◌∷◌, ◌==◌, ◌&&◌, ◌||◌, text_eq, text_eq_iff,
  is_upper_ascii, is_lower_ascii, is_digit, lower_ascii, upper_ascii, if◌then◌else◌, ◌≡◌, refl,
  arith,
}

abbrev pub Headers : Type 0
Headers = List (Text × Text)

abbrev mem_byte : ℕ → Text → Bool
mem_byte c [] = false
mem_byte c (d ∷ s) = c == d || mem_byte c s

-- The bytes of a token.
unfoldable pub is_token_byte : ℕ → Bool
is_token_byte c =
    is_upper_ascii c || is_lower_ascii c || is_digit c || mem_byte c (codes "!#$%&'*+-.^_`|~")

unfoldable pub is_token : Text → Bool
unfolding is_token_byte
is_token [] = true
is_token (c ∷ s) = is_token_byte c && is_token s

-- The first letter and each letter behind a dash in upper case, the others in lower case.
unfoldable pub camel : Bool → Text → Text
camel up [] = []
camel up (c ∷ s) = (if up then upper_ascii c else lower_ascii c) ∷ camel (c == b'-') s

-- `textproto.CanonicalMIMEHeaderKey`
unfoldable pub canonical : Text → Text
unfolding is_token camel
canonical k = if is_token k then camel true k else k

-- Over canonical keys; a new key goes to the end.
unfoldable pub put : Text → Text → Headers → Headers
put k v [] = (k, v) ∷ []
put k v ((j, w) ∷ h) = if text_eq j k then (k, v) ∷ h else (j, w) ∷ put k v h

unfoldable pub look : Text → Headers → Text
look k [] = []
look k ((j, v) ∷ h) = if text_eq j k then v else look k h

-- `h.Set(k, v)`
unfoldable pub header_set : Text → Text → Headers → Headers
unfolding put
header_set k v h = put (canonical k) v h

-- `h.Get(k)`, the empty text if there is no such key
unfoldable pub header_get : Text → Headers → Text
unfolding look
header_get k h = look (canonical k) h

pub look-put :
    (k j v : Text) (h : Headers) → look j (put k v h) ≡ (if text_eq k j then v else look j h)
unfolding look put
look-put k j v [] = refl
look-put k j v ((i, w) ∷ h) =
    ground (arith, text_eq_iff k j, text_eq_iff i k, text_eq_iff i j, look-put k j v h)

-- A header that was set is read back under any spelling with the same canonical form, and the
-- others stay as they were.
pub header_get-set :
    (k j v : Text) (h : Headers)
    → header_get j (header_set k v h)
      ≡ (if text_eq (canonical k) (canonical j) then v else header_get j h)
header_get-set k j v h = unfold header_get header_set in look-put (canonical k) (canonical j) v h
