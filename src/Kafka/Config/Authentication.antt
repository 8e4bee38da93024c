-- ===== src/Kafka/Config/Authentication.antt =====
-- Which connections of kafka/config.go authenticate.
use core_shared.Base.{
  Text, codes, Bool, false, Bool-cases, none, inl, inr, ◌||◌, ◌&&◌, not, is_empty, text_eq,
  text_eq-cases, to_lower, equal_fold, if◌then◌else◌, ◌≡◌, ◌↔◌, ◌⊎◌, refl, arith,
}
use core_shared.Returns.{Result, ok, err, IsErr}
use core_shared.Kafka.Config.{
  Config, Hash, sha256, sha512, unless_refused, named_mechanism, build_sasl_mechanism, new_dialer,
  transport,
}

-- The protocol is not plaintext, and there are a user and a password.
abbrev pub asks_for_sasl : Config → Bool
asks_for_sasl c =
    not (is_empty c.protocol || equal_fold c.protocol (codes "PLAINTEXT"))
    && not (is_empty c.username || is_empty c.password)

abbrev pub is_plain : Text → Bool
is_plain name = text_eq name (codes "plain")

-- All names but one ask for SHA-512.
abbrev pub hash_of : Text → Hash
hash_of name = if text_eq name (codes "scramsha256") then sha256 else sha512

module _ {Scram : Type 0} (scram : Hash → Text → Text → Result Scram) where
  -- The library refuses the credentials for a SCRAM mechanism.
  abbrev pub IsRefused : Config → Type 0
  IsRefused c =
      (is_plain (to_lower c.mechanism) ≡ false)
      × IsErr (scram (hash_of (to_lower c.mechanism)) c.username c.password)

  refused_iff : (r : Result Scram) → (unless_refused scram r ≡ none) ↔ IsErr r
  refused_iff (ok m) = (λ absent. ground arith, λ x. absurd x)
  refused_iff (err e) = (λ _. tt, λ _. refl)

  scram_iff : (r : Result Scram) → (unless_refused scram r ≡ none) ↔ ((false ≡ false) × IsErr r)
  scram_iff r = (λ absent. (refl, (refused_iff r).0 absent), λ (_, e). (refused_iff r).1 e)

  named_mechanism-none_iff :
      (name user password : Text)
      → (named_mechanism scram name user password ≡ none)
        ↔ ((is_plain name ≡ false) × IsErr (scram (hash_of name) user password))
  unfolding named_mechanism text_eq
  named_mechanism-none_iff name user password = elim (text_eq-cases name (codes "scramsha512")) [
    | inl same ↦ rw same (scram_iff (scram sha512 user password))
    | inr other512 ↦ elim (text_eq-cases name (codes "scramsha256")) [
      | inl same ↦ rw same (scram_iff (scram sha256 user password))
      | inr other256 ↦ elim (text_eq-cases name (codes "plain")) [
        | inl same ↦ rw same (λ absent. ground arith, λ (differs, _). ground arith)
        | inr other ↦ rw (other512, other256, other) (scram_iff (scram sha512 user password))
      ]
    ]
  ]

  build_sasl_mechanism-none_iff :
      (c : Config)
      → (build_sasl_mechanism scram c ≡ none) ↔ ((asks_for_sasl c ≡ false) ⊎ IsRefused c)
  unfolding build_sasl_mechanism
  build_sasl_mechanism-none_iff c =
      elim (Bool-cases (is_empty c.protocol || equal_fold c.protocol (codes "PLAINTEXT"))) [
        | inl open_protocol ↦ rw open_protocol (λ _. inl refl, λ _. refl)
        | inr closed ↦ elim (Bool-cases (is_empty c.username || is_empty c.password)) [
          | inl missing ↦ rw (closed, missing) (λ _. inl refl, λ _. refl)
          | inr given ↦
              let named = named_mechanism-none_iff (to_lower c.mechanism) c.username c.password in
              rw (closed, given)
                (
                  λ absent. inr (named.0 absent),
                  λ h. elim h [ inl absurd_case ↦ ground arith | inr refused ↦ named.1 refused ],
                )
        ]
      ]

  -- The dialer of the readers and the transport of the writers authenticate in the same way and
  -- agree on TLS. They have no authentication if the protocol is plaintext, if the user or the
  -- password is empty, and also if the library refuses the credentials: the refusal is not
  -- reported, and the connection is made without them. In every other case they have it.
  pub connections_lem :
      (c : Config)
      → ((new_dialer scram c).sasl_mechanism ≡ (transport scram c).sasl)
        × ((new_dialer scram c).tls ≡ (transport scram c).tls)
        × (((transport scram c).sasl ≡ none) ↔ ((asks_for_sasl c ≡ false) ⊎ IsRefused c))
  unfolding new_dialer transport
  connections_lem c = (refl, refl, build_sasl_mechanism-none_iff c)
