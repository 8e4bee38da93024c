-- ===== src/Kafka/Config.antt =====
-- kafka/config.go: the authentication and encryption of connections. `scram` is the library's
-- constructor of a SCRAM mechanism, which may refuse the credentials.
pub mod Authentication
use core_shared.Base.{
  ℕ, Text, codes, Bool, true, false, Option, none, some, List, ◌||◌, is_empty, text_eq, to_lower,
  equal_fold, if◌then◌else◌,
}
use core_shared.Returns.{Result, ok, err}

pub record Config : Type 0 where
  pub brokers : List Text
  pub username : Text
  pub password : Text
  pub protocol : Text
  pub mechanism : Text

pub data Hash : Type 0 where
  sha256 sha512 : Hash

pub data Mechanism (Scram : Type 0) : Type 0 where
  scram_mechanism : Scram → Mechanism Scram
  plain_mechanism : Text → Text → Mechanism Scram

-- `kafka.Dialer` and `kafka.Transport`; `tls` says that there is a TLS configuration.
pub record Dialer (Scram : Type 0) : Type 0 where
  pub timeout_seconds : ℕ
  pub dual_stack : Bool
  pub sasl_mechanism : Option (Mechanism Scram)
  pub tls : Bool

pub record Transport (Scram : Type 0) : Type 0 where
  pub sasl : Option (Mechanism Scram)
  pub tls : Bool

abbrev pub is_tls : Config → Bool
is_tls c = equal_fold c.protocol (codes "SaslSsl")

module _ {Scram : Type 0} (scram : Hash → Text → Text → Result Scram) where
  abbrev pub unless_refused : Result Scram → Option (Mechanism Scram)
  unless_refused (ok m) = some (scram_mechanism m)
  unless_refused (err e) = none

  -- The switch, on the mechanism's name in lower case.
  unfoldable pub named_mechanism : Text → Text → Text → Option (Mechanism Scram)
  named_mechanism name user password =
      if text_eq name (codes "scramsha512")
      then unless_refused (scram sha512 user password)
      else if text_eq name (codes "scramsha256")
      then unless_refused (scram sha256 user password)
      else if text_eq name (codes "plain")
      then some (plain_mechanism user password)
      else unless_refused (scram sha512 user password)

  unfoldable pub build_sasl_mechanism : Config → Option (Mechanism Scram)
  unfolding named_mechanism
  build_sasl_mechanism c =
      if is_empty c.protocol || equal_fold c.protocol (codes "PLAINTEXT")
      then none
      else if is_empty c.username || is_empty c.password
      then none
      else named_mechanism (to_lower c.mechanism) c.username c.password

  unfoldable pub new_dialer : Config → Dialer Scram
  unfolding build_sasl_mechanism
  new_dialer c = record {
    timeout_seconds = 10;
    dual_stack = true;
    sasl_mechanism = build_sasl_mechanism c;
    tls = is_tls c;
  }

  unfoldable pub transport : Config → Transport Scram
  unfolding build_sasl_mechanism
  transport c = record { sasl = build_sasl_mechanism c; tls = is_tls c }
