-- ===== src/Mongo/Patterns.antt =====
-- mongo/bsonutil.go: the filters by a regular expression.
pub mod Meaning
use core_shared.Base.{ℕ, Text, codes, Bool, true, false, [], ◌∷◌, ◌++◌, ◌==◌, ◌||◌, if◌then◌else◌}

-- `bson.M{field: bson.M{"$regex": bson.Regex{Pattern: pattern}}}`
pub record RegexFilter : Type 0 where
  pub field : Text
  pub pattern : Text

abbrev one_of : Text → ℕ → Bool
one_of [] c = false
one_of (d ∷ s) c = c == d || one_of s c

unfoldable pub is_special : ℕ → Bool
is_special c = one_of (codes "\\.+*?()|[]{}^$") c

-- `regexp.QuoteMeta`
unfoldable pub quote_meta : Text → Text
quote_meta [] = []
quote_meta (c ∷ s) = let rest = quote_meta s in if is_special c then b'\\' ∷ c ∷ rest else c ∷ rest

unfoldable pub starts_with : Text → Text → RegexFilter
unfolding quote_meta is_special
starts_with field value = record { field = field; pattern = b'^' ∷ quote_meta value }

unfoldable pub ends_with : Text → Text → RegexFilter
unfolding quote_meta is_special
ends_with field value = record { field = field; pattern = quote_meta value ++ b'$' ∷ [] }

unfoldable pub contains : Text → Text → RegexFilter
unfolding quote_meta is_special
contains field value = record { field = field; pattern = quote_meta value }
