-- ===== src/Camunda/Accepted.antt =====
-- Which configurations camunda/client.go accepts, and what it makes of them.
use core_shared.Base.{
  Text, codes, text_eq, ◌||◌, Bool, true, false, Option, none, some, is_empty, if◌then◌else◌, ◌≡◌,
  ◌↔◌, refl, arith,
}
use core_shared.Apperror.{Error}
use core_shared.Returns.{Result, ok, err}
use core_shared.Camunda.{
  Config, OauthConfig, ZbcConfig, Credentials, is_saas, enabled, no_auth, mode_self_managed,
  saas_base, self_managed_base, basic_credentials, oauth_credentials, with_credentials, provided,
  saas_config, self_managed_config, self_managed_credentials, build_zbc_config,
}

-- What a configuration of the library must be for one of ours.
abbrev pub IsSafe : Config → Result ZbcConfig → Type 0
IsSafe cfg (err e) = Unit {0}
IsSafe cfg (ok z) =
    (enabled cfg ≡ true)
    × ((z.credentials ≡ none) ↔ ((is_saas cfg ≡ false) × (no_auth cfg ≡ true)))
    × ((z.use_plaintext ≡ true) ↔ ((is_saas cfg ≡ false) × (cfg.plaintext ≡ true)))

-- Credentials are left out only where the configuration asks for none.
abbrev pub IsAsked : Config → Result (Option Credentials) → Type 0
IsAsked cfg (err e) = Unit {0}
IsAsked cfg (ok creds) = (creds ≡ none) ↔ ((is_saas cfg ≡ false) × (no_auth cfg ≡ true))

on_both :
    {A : Type 0} (P : A → Type 0) {x y : A} (b : Bool)
    → (b ≡ true → P x)
    → (b ≡ false → P y)
    → P (if b then x else y)
on_both P true f g = f refl
on_both P false f g = g refl

module _ (oauth : OauthConfig → Option Error) (quote : Text → Text) (cfg : Config) where
  given-IsSafe :
      (z : ZbcConfig) (r : Result (Option Credentials))
      → enabled cfg ≡ true
      → ((z.use_plaintext ≡ true) ↔ ((is_saas cfg ≡ false) × (cfg.plaintext ≡ true)))
      → IsAsked cfg r
      → IsSafe cfg (with_credentials oauth quote z r)
  given-IsSafe z (err e) on plain asked = tt
  given-IsSafe z (ok creds) on plain asked = (on, asked, plain)

  provided-IsAsked :
      (prefix : Text) (conf : OauthConfig) (e : Option Error)
      → ((is_saas cfg ≡ false) × (no_auth cfg ≡ true) → ⊥)
      → IsAsked cfg (provided oauth quote prefix conf e)
  provided-IsAsked prefix conf (some e) some_auth = tt
  provided-IsAsked prefix conf none some_auth =
      (λ absent. ground arith, λ asked. absurd (some_auth asked))

  saas_config-IsSafe : is_saas cfg ≡ true → IsSafe cfg (saas_config oauth quote cfg)
  unfolding saas_config enabled
  saas_config-IsSafe saas =
      on_both (IsSafe cfg) (is_empty cfg.cluster_id) (λ _. tt)
        (λ given.
          on_both (IsSafe cfg) (is_empty cfg.oauth_client_id || is_empty cfg.oauth_client_secret)
            (λ _. tt)
            (λ _.
              given-IsSafe (saas_base cfg) _ (rw (saas, given) refl) (ground (arith, saas))
                (provided-IsAsked _ _ _ (ground (arith, saas)))))

  basic_credentials-IsAsked : no_auth cfg ≡ false → IsAsked cfg (basic_credentials oauth quote cfg)
  unfolding basic_credentials
  basic_credentials-IsAsked some_auth =
      on_both (IsAsked cfg) (is_empty cfg.username || is_empty cfg.password) (λ _. tt)
        (λ _. (λ absent. ground arith, λ asked. ground (arith, some_auth)))

  oauth_credentials-IsAsked : no_auth cfg ≡ false → IsAsked cfg (oauth_credentials oauth quote cfg)
  unfolding oauth_credentials
  oauth_credentials-IsAsked some_auth =
      on_both (IsAsked cfg)
        (is_empty cfg.oauth_client_id
          || is_empty cfg.oauth_client_secret
          || is_empty cfg.oauth_auth_url)
        (λ _. tt) (λ _. provided-IsAsked _ _ _ (ground (arith, some_auth)))

  self_managed_credentials-IsAsked :
      is_saas cfg ≡ false → IsAsked cfg (self_managed_credentials oauth quote cfg)
  unfolding self_managed_credentials
  self_managed_credentials-IsAsked here =
      on_both (IsAsked cfg) (no_auth cfg) (λ no_auth_given. (λ _. (here, no_auth_given), λ _. refl))
        (λ some_auth.
          on_both (IsAsked cfg) (text_eq cfg.auth (codes "basic"))
            (λ _. basic_credentials-IsAsked some_auth)
            (λ _.
              on_both (IsAsked cfg) (text_eq cfg.auth (codes "oauth"))
                (λ _. oauth_credentials-IsAsked some_auth) (λ _. tt)))

  self_managed_config-IsSafe :
      is_saas cfg ≡ false → IsSafe cfg (self_managed_config oauth quote cfg)
  unfolding self_managed_config enabled
  self_managed_config-IsSafe here =
      on_both (IsSafe cfg) (is_empty cfg.gateway_address) (λ _. tt)
        (λ given.
          given-IsSafe (self_managed_base cfg) _ (rw (here, given) refl) (λ p. (here, p), λ q. q.1)
            (self_managed_credentials-IsAsked here))

  -- A configuration that is accepted is enabled. It leads to a client without credentials exactly
  -- if the mode is not "saas" and the auth type is "none" or empty, and to one without TLS exactly
  -- if the mode is not "saas" and it asks for plaintext.
  pub build_zbc_config-IsSafe : IsSafe cfg (build_zbc_config oauth quote cfg)
  unfolding build_zbc_config
  build_zbc_config-IsSafe = on_both (IsSafe cfg) (is_saas cfg) saas_config-IsSafe (λ here.
      on_both (IsSafe cfg) (text_eq cfg.mode mode_self_managed || is_empty cfg.mode)
        (λ _. self_managed_config-IsSafe here) (λ _. tt))
