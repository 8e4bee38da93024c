-- ===== src/Client/Url.antt =====
-- client/http.go: the URL of a request.
use core_shared.Base.{
  ℕ, zero, suc, Text, codes, Bool, false, [], ◌∷◌, ◌++◌, ◌==◌, ◌&&◌, ◌||◌, is_empty, has_prefix,
  if◌then◌else◌, ◌≡◌, ◌≢◌, ◌∙◌, ap, refl, arith, repeat,
}

-- `strings.TrimRight(s, "/")`
unfoldable pub trim_right_slash : Text → Text
trim_right_slash [] = []
trim_right_slash (c ∷ s) =
    let rest = trim_right_slash s in if is_empty rest && c == b'/' then [] else c ∷ rest

abbrev pub is_absolute : Text → Bool
is_absolute path = has_prefix path (codes "http://") || has_prefix path (codes "https://")

unfoldable pub resolve : Text → Text → Text
resolve base_url path =
    if is_absolute path
    then path
    else if is_empty base_url
    then path
    else if has_prefix path (codes "/")
    then base_url ++ path
    else base_url ++ b'/' ∷ path

trim_slashes : (k : ℕ) → trim_right_slash (repeat k b'/') ≡ []
unfolding trim_right_slash
trim_slashes zero = refl
trim_slashes (suc k) = rw (trim_slashes k)

trim-append :
    (a : Text) (c k : ℕ) → c ≢ b'/' → trim_right_slash (a ++ c ∷ repeat k b'/') ≡ a ++ c ∷ []
unfolding trim_right_slash
trim-append [] c k h = rw (trim_slashes k) (ground arith)
trim-append (x ∷ []) c k h = rw (trim-append [] c k h)
trim-append (x ∷ y ∷ a) c k h = rw (trim-append (y ∷ a) c k h)

joins :
    (a : Text) (c : ℕ) (p : Text)
    → is_absolute p ≡ false
    → has_prefix p (codes "/") ≡ false
    → resolve (a ++ c ∷ []) p ≡ (a ++ c ∷ []) ++ b'/' ∷ p
unfolding resolve
joins [] c p n h = rw (n, h)
joins (x ∷ a) c p n h = rw (n, h)

joins_rooted :
    (a : Text) (c : ℕ) (p : Text) → resolve (a ++ c ∷ []) (b'/' ∷ p) ≡ (a ++ c ∷ []) ++ b'/' ∷ p
unfolding resolve has_prefix
joins_rooted [] c p = refl
joins_rooted (x ∷ a) c p = refl

-- A base URL that ends in any number of slashes, behind another byte, and a relative path, with
-- or without its leading slash, are joined by one slash. A path is relative unless it starts with
-- "http://" or "https://".
pub resolve-trim_right_slash :
    (a : Text) (c k : ℕ) (p : Text)
    → c ≢ b'/'
    → is_absolute p ≡ false
    → has_prefix p (codes "/") ≡ false
    → (resolve (trim_right_slash (a ++ c ∷ repeat k b'/')) p ≡ (a ++ c ∷ []) ++ b'/' ∷ p)
      × (resolve (trim_right_slash (a ++ c ∷ repeat k b'/')) (b'/' ∷ p) ≡ (a ++ c ∷ []) ++ b'/' ∷ p)
resolve-trim_right_slash a c k p hc n h = (
  ap (λ base. resolve base p) (trim-append a c k hc) ∙ joins a c p n h,
  ap (λ base. resolve base (b'/' ∷ p)) (trim-append a c k hc) ∙ joins_rooted a c p,
)
