-- ===== src/Camunda.antt =====
-- camunda/client.go: the configuration of a Zeebe client, and its credentials. What the Zeebe
-- library answers is an argument: `oauth` whether it makes a provider of credentials, `dial`
-- whether it makes a client. `quote` is the verb %q of `fmt`.
pub mod Accepted
pub mod BasicAuth
pub mod Construction
pub mod Publishing
use core_shared.Base.{
  text_or, ℕ, ◌*◌, ◌+◌, ◌/◌, ◌%◌, ◌-◌, Text, codes, Bool, true, false, Option, none, some, List, [],
  ◌∷◌, ◌++◌, ◌==◌, ltb, ◌&&◌, ◌||◌, not, map, lower_ascii, text_eq, is_empty, if◌then◌else◌,
}
use core_shared.Apperror.{Error, plain, wrapped}
use core_shared.Returns.{Result, ok, err}
use core_shared.Http.{LogRecord, info}
use core_shared.Http.Ctx.{Logger}
use core_shared.Http.HeaderMap.{put}

pub record Config : Type 0 where
  pub mode : Text
  pub gateway_address : Text
  pub plaintext : Bool
  pub ca_cert_path : Text
  pub auth : Text
  pub username : Text
  pub password : Text
  pub oauth_client_id : Text
  pub oauth_client_secret : Text
  pub oauth_audience : Text
  pub oauth_auth_url : Text
  pub oauth_scope : Text
  pub cluster_id : Text
  pub region : Text

abbrev pub mode_self_managed : Text
mode_self_managed = codes "self-managed"

abbrev pub mode_saas : Text
mode_saas = codes "saas"

abbrev pub auth_none : Text
auth_none = codes "none"

abbrev pub auth_basic : Text
auth_basic = codes "basic"

abbrev pub auth_oauth : Text
auth_oauth = codes "oauth"

abbrev pub saas_default_audience : Text
saas_default_audience = codes "zeebe.camunda.io"

abbrev pub saas_default_auth_url : Text
saas_default_auth_url = codes "https://login.cloud.camunda.io/oauth/token"

abbrev pub saas_default_region : Text
saas_default_region = codes "bru-2"

-- In seconds
abbrev pub default_request_timeout : ℕ
default_request_timeout = 10

abbrev pub is_saas : Config → Bool
is_saas cfg = text_eq cfg.mode mode_saas

unfoldable pub enabled : Config → Bool
enabled cfg = not (is_empty (if is_saas cfg then cfg.cluster_id else cfg.gateway_address))

pub record OauthConfig : Type 0 where
  pub client_id : Text
  pub client_secret : Text
  pub audience : Text
  pub scope : Text
  pub auth_url : Text
  pub timeout_seconds : ℕ

-- A provider of credentials: the header of basicAuthProvider, or one that the library makes.
pub data Credentials : Type 0 where
  basic : Text → Credentials
  oauth_provider : OauthConfig → Credentials

-- `zbc.ClientConfig`
pub record ZbcConfig : Type 0 where
  pub gateway : Text
  pub use_plaintext : Bool
  pub ca_path : Text
  pub credentials : Option Credentials

-- `base64.StdEncoding.EncodeToString`
abbrev pub sextet : ℕ → ℕ
sextet n =
    if ltb n 26
    then n + b'A'
    else if ltb n 52
    then n - 26 + b'a'
    else if ltb n 62
    then n - 52 + b'0'
    else if n == 62
    then b'+'
    else b'/'

unfoldable pub base64 : Text → Text
base64 [] = []
base64 (x ∷ []) = sextet (x / 4) ∷ sextet (x % 4 * 16) ∷ b'=' ∷ b'=' ∷ []
base64 (x ∷ y ∷ []) =
    sextet (x / 4) ∷ sextet (x % 4 * 16 + y / 16) ∷ sextet (y % 16 * 4) ∷ b'=' ∷ []
base64 (x ∷ y ∷ z ∷ s) =
    sextet (x / 4)
    ∷ sextet (x % 4 * 16 + y / 16)
    ∷ sextet (y % 16 * 4 + z / 64)
    ∷ sextet (z % 64)
    ∷ base64 s

abbrev pub new_basic_auth_provider : Text → Text → Credentials
new_basic_auth_provider user pass = basic (codes "Basic " ++ base64 (user ++ b':' ∷ pass))

-- `ApplyCredentials` of basicAuthProvider, on its header.
abbrev pub apply_credentials : Text → List (Text × Text) → List (Text × Text)
apply_credentials header headers = put (codes "Authorization") header headers

-- `ShouldRetryRequest` of basicAuthProvider
abbrev pub should_retry_request : Error → Bool
should_retry_request e = false

abbrev pub oauth_config : Config → Text → Text → OauthConfig
oauth_config cfg audience auth_url = record {
  client_id = cfg.oauth_client_id;
  client_secret = cfg.oauth_client_secret;
  audience = audience;
  scope = cfg.oauth_scope;
  auth_url = auth_url;
  timeout_seconds = default_request_timeout;
}

-- The configurations before credentials are added.
abbrev pub saas_base : Config → ZbcConfig
saas_base cfg = record {
  gateway =
      cfg.cluster_id
      ++ b'.' ∷ (text_or cfg.region saas_default_region ++ codes ".zeebe.camunda.io:443");
  use_plaintext = false;
  ca_path = [];
  credentials = none;
}

abbrev pub self_managed_base : Config → ZbcConfig
self_managed_base cfg = record {
  gateway = cfg.gateway_address;
  use_plaintext = cfg.plaintext;
  ca_path = cfg.ca_cert_path;
  credentials = none;
}

abbrev pub no_auth : Config → Bool
no_auth cfg = text_eq cfg.auth auth_none || is_empty cfg.auth

module _ (oauth : OauthConfig → Option Error) (quote : Text → Text) where
  -- The credentials of `conf`, or the library's error under a prefix.
  abbrev pub provided : Text → OauthConfig → Option Error → Result (Option Credentials)
  provided prefix conf (some e) = err (wrapped prefix e)
  provided prefix conf none = ok (some (oauth_provider conf))

  abbrev pub with_credentials : ZbcConfig → Result (Option Credentials) → Result ZbcConfig
  with_credentials z (ok creds) = ok (record z { credentials = creds })
  with_credentials z (err e) = err e

  abbrev pub saas_oauth : Config → OauthConfig
  saas_oauth cfg =
      oauth_config cfg (text_or cfg.oauth_audience saas_default_audience)
        (text_or cfg.oauth_auth_url saas_default_auth_url)

  unfoldable pub saas_config : Config → Result ZbcConfig
  saas_config cfg =
      if is_empty cfg.cluster_id
      then err (plain (codes "saas: ClusterID is required"))
      else if is_empty cfg.oauth_client_id || is_empty cfg.oauth_client_secret
      then err (plain (codes "saas: OAuthClientID and OAuthClientSecret are required"))
      else with_credentials (saas_base cfg) (
          provided (codes "saas: build oauth credentials") (saas_oauth cfg)
            (oauth (saas_oauth cfg)))

  unfoldable pub basic_credentials : Config → Result (Option Credentials)
  basic_credentials cfg =
      if is_empty cfg.username || is_empty cfg.password
      then err (plain (codes "self-managed basic: Username and Password are required"))
      else ok (some (new_basic_auth_provider cfg.username cfg.password))

  unfoldable pub oauth_credentials : Config → Result (Option Credentials)
  oauth_credentials cfg =
      let conf = oauth_config cfg cfg.oauth_audience cfg.oauth_auth_url in
      if is_empty cfg.oauth_client_id
        || is_empty cfg.oauth_client_secret
        || is_empty cfg.oauth_auth_url
      then err (
          plain (
            codes
              "self-managed oauth: OAuthClientID, OAuthClientSecret, OAuthAuthURL are required"))
      else provided (codes "self-managed oauth: build credentials") conf (oauth conf)

  unfoldable pub self_managed_credentials : Config → Result (Option Credentials)
  unfolding basic_credentials oauth_credentials
  self_managed_credentials cfg =
      if no_auth cfg
      then ok none
      else if text_eq cfg.auth auth_basic
      then basic_credentials cfg
      else if text_eq cfg.auth auth_oauth
      then oauth_credentials cfg
      else err (plain (codes "unknown auth type " ++ quote cfg.auth))

  unfoldable pub self_managed_config : Config → Result ZbcConfig
  unfolding self_managed_credentials
  self_managed_config cfg =
      if is_empty cfg.gateway_address
      then err (plain (codes "self-managed: GatewayAddress is required"))
      else with_credentials (self_managed_base cfg) (self_managed_credentials cfg)

  unfoldable pub build_zbc_config : Config → Result ZbcConfig
  unfolding saas_config self_managed_config
  build_zbc_config cfg =
      if is_saas cfg
      then saas_config cfg
      else if text_eq cfg.mode mode_self_managed || is_empty cfg.mode
      then self_managed_config cfg
      else err (plain (codes "unknown camunda mode " ++ quote cfg.mode))
