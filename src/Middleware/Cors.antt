-- ===== src/Middleware/Cors.antt =====
-- middleware/cors.go: the options for the third-party middleware.
use core_shared.Base.{ℕ, Text, codes, Bool, true, List, [], ◌∷◌, is_empty, if◌then◌else◌}

pub record CorsOptions : Type 0 where
  pub allowed_origins : List Text
  pub allowed_methods : List Text
  pub allowed_headers : List Text
  pub exposed_headers : List Text
  pub allow_credentials : Bool
  pub max_age : ℕ

unfoldable pub cors_options : List Text → CorsOptions
cors_options allowed_origins = record {
  allowed_origins = if is_empty allowed_origins then codes "*" ∷ [] else allowed_origins;
  allowed_methods =
      codes "GET"
      ∷ codes "POST"
      ∷ codes "PUT"
      ∷ codes "DELETE"
      ∷ codes "PATCH"
      ∷ codes "OPTIONS"
      ∷ [];
  allowed_headers =
      codes "Accept" ∷ codes "Authorization" ∷ codes "Content-Type" ∷ codes "X-Request-ID" ∷ [];
  exposed_headers = codes "X-Request-ID" ∷ [];
  allow_credentials = true;
  max_age = 300;
}
