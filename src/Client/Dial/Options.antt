-- ===== src/Client/Dial/Options.antt =====
-- What a connection that `DialGRPC` of client/grpc.go dials is made with.
use core_shared.Base.{
  ℕ, if◌then◌else◌, Text, codes, false, Bool-cases, none, some, List, [], ◌∷◌, ◌++◌, append-nil,
  is_empty, inl, inr, ◌↔◌, ◌≡◌, ap, sym, refl, arith,
}
use core_shared.Http.{LogRecord}
use core_shared.Http.Ctx.{Logger}
use core_shared.Returns.{Result, ok, err, IsErr}
use core_shared.Client.Dial.{
  DialConfig, DialOption, with_block, Dialling, dial_context, new_client, Outcome, dial_options,
  is_positive, outcome, dialled_record, dial_grpc,
}

abbrev pub options_of : Dialling → List DialOption
options_of (dial_context timeout addr opts) = opts
options_of (new_client addr opts) = opts

-- What an address that is not empty gets: a dialling `d` whose options are those of the code,
-- then the caller's, and `last`. Nothing is logged exactly if it fails, as the call does.
abbrev pub Dials :
    (Dialling → Result ℕ) → DialConfig → List DialOption → Outcome → List DialOption → Type 0
Dials library cfg extra o last =
    (d : Dialling) × (o.dialled ≡ some d)
    × (options_of d ≡ dial_options cfg (extra ++ last))
    × ((o.logged ≡ none) ↔ IsErr (library d))
    × (IsErr o.result ↔ IsErr (library d))

outcome_lem :
    (d : Dialling) (prefix : Text) (success : LogRecord) (r : Result ℕ)
    → ((outcome d prefix success r).dialled ≡ some d)
      × (((outcome d prefix success r).logged ≡ none) ↔ IsErr r)
      × (IsErr (outcome d prefix success r).result ↔ IsErr r)
outcome_lem d prefix success (ok conn) =
    (refl, (λ absent. ground arith, λ x. absurd x), (λ x. x, λ x. x))
outcome_lem d prefix success (err e) = (refl, (λ _. tt, λ _. refl), (λ x. x, λ x. x))

-- A dial of an address that is not empty makes one connection. Its options are those of the code,
-- then the caller's, then the one to block, exactly if the timeout is positive. A connection that
-- the library makes is returned and logged, an error is returned and nothing is logged.
pub dial_grpc-Dials :
    (library : Dialling → Result ℕ) (log : Logger) (cfg : DialConfig) (extra : List DialOption)
    → is_empty cfg.addr ≡ false
    → Dials library cfg extra
        (dial_grpc library log cfg extra)
        (if is_positive cfg.timeout then with_block ∷ [] else [])
unfolding dial_grpc
dial_grpc-Dials library log cfg extra named =
    let blocking = dial_context cfg.timeout cfg.addr (dial_options cfg extra ++ with_block ∷ []) in
    let lazy = new_client cfg.addr (dial_options cfg extra) in
    elim (Bool-cases (is_positive cfg.timeout)) [
      | inl positive ↦
          let (dialled, logged, result) =
            outcome_lem blocking (codes "dial grpc " ++ cfg.addr)
              (dialled_record log cfg (codes "grpc connected")) (library blocking) in
          rw (named, positive) (blocking, dialled, refl, logged, result)
      | inr other ↦
          let (dialled, logged, result) =
            outcome_lem lazy (codes "new grpc client " ++ cfg.addr)
              (dialled_record log cfg (codes "grpc client created (lazy)")) (library lazy) in
          rw (named, other)
            (lazy, dialled, ap (dial_options cfg) (sym (append-nil extra)), logged, result)
    ]
