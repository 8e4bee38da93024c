-- ===== src/Camunda/Construction.antt =====
-- camunda/client.go: the constructors of the client, and the configuration from the environment.
use core_shared.Base.{to_lower, equal_fold, Text, codes, true, Option, none, some, [], ◌∷◌, ◌++◌}
use core_shared.Apperror.{Error, plain, wrapped}
use core_shared.Returns.{Result, ok, err}
use core_shared.Http.{LogRecord, info}
use core_shared.Http.Ctx.{Logger}
use core_shared.Camunda.{Config, OauthConfig, ZbcConfig, mode_self_managed, build_zbc_config}

module _ (oauth : OauthConfig → Option Error) (quote : Text → Text) where
  -- The client holds the configuration that it was made with.
  pub record Client : Type 0 where
    pub zeebe : ZbcConfig
    pub logger : Logger

  abbrev connected : Config → Logger → ZbcConfig → Option Error → Result (Client × LogRecord)
  connected cfg log z (some e) = err (wrapped (codes "create zeebe client") e)
  connected cfg log z none = ok (
    record { zeebe = z; logger = log },
    record {
      level = info;
      message = codes "camunda client connected";
      attrs = log ++ (codes "mode", cfg.mode) ∷ (codes "gateway", z.gateway) ∷ [];
    },
  )

  abbrev connect :
      (ZbcConfig → Option Error) → Config → Logger → Result ZbcConfig → Result (Client × LogRecord)
  connect dial cfg log (err e) = err e
  connect dial cfg log (ok z) = connected cfg log z (dial z)

  -- `New`; a logger that is `none` is nil.
  unfoldable pub new :
      (ZbcConfig → Option Error) → Config → Option Logger → Result (Client × LogRecord)
  unfolding build_zbc_config
  new dial cfg none = err (plain (codes "logger is required"))
  new dial cfg (some log) = connect dial cfg log (build_zbc_config oauth quote cfg)

  -- `NewClient`
  unfoldable pub new_client :
      (ZbcConfig → Option Error) → Text → Option Logger → Result (Client × LogRecord)
  unfolding new
  new_client dial gateway_addr = new dial (record {
    mode = mode_self_managed;
    gateway_address = gateway_addr;
    plaintext = true;
    ca_cert_path = [];
    auth = codes "none";
    username = [];
    password = [];
    oauth_client_id = [];
    oauth_client_secret = [];
    oauth_audience = [];
    oauth_auth_url = [];
    oauth_scope = [];
    cluster_id = [];
    region = [];
  })

unfoldable pub load_config_from_env : (Text → Text → Text) → Config
load_config_from_env get_env = record {
  mode = to_lower (get_env (codes "CAMUNDA_MODE") mode_self_managed);
  gateway_address = get_env (codes "CAMUNDA_GATEWAY") [];
  plaintext = equal_fold (get_env (codes "CAMUNDA_PLAINTEXT") (codes "true")) (codes "true");
  ca_cert_path = get_env (codes "CAMUNDA_CA_CERT") [];
  auth = to_lower (get_env (codes "CAMUNDA_AUTH") (codes "none"));
  username = get_env (codes "CAMUNDA_USERNAME") [];
  password = get_env (codes "CAMUNDA_PASSWORD") [];
  oauth_client_id = get_env (codes "CAMUNDA_CLIENT_ID") [];
  oauth_client_secret = get_env (codes "CAMUNDA_CLIENT_SECRET") [];
  oauth_auth_url = get_env (codes "CAMUNDA_AUTH_URL") [];
  oauth_audience = get_env (codes "CAMUNDA_AUDIENCE") [];
  oauth_scope = get_env (codes "CAMUNDA_SCOPE") [];
  cluster_id = get_env (codes "CAMUNDA_CLUSTER_ID") [];
  region = get_env (codes "CAMUNDA_REGION") [];
}
