-- ===== src/Client/Dial.antt =====
-- client/grpc.go: `DialGRPC`. The library's dial is an argument; a connection is known by a number.
pub mod Options
use core_shared.Base.{
  ℕ, Text, codes, Bool, true, false, Option, none, some, List, [], ◌∷◌, ◌++◌, is_empty,
  if◌then◌else◌, ℤ, pos, leb_ℤ,
}
use core_shared.Apperror.{Error, plain, wrapped}
use core_shared.Http.{LogRecord, info}
use core_shared.Http.Ctx.{Logger}
use core_shared.Returns.{Result, ok, err}

-- `tls` is the caller's TLS configuration, known by a number, none for nil.
pub record DialConfig : Type 0 where
  pub addr : Text
  pub timeout : ℤ
  pub is_insecure : Bool
  pub tls : Option ℕ

-- The options of the code, and those of the caller.
pub data DialOption : Type 0 where
  otel_stats unary_request_id stream_request_id : DialOption
  insecure_credentials : DialOption
  tls_credentials : Option ℕ → DialOption
  with_block : DialOption
  extra_option : ℕ → DialOption

-- A call of the library: `DialContext` with a timeout, or `NewClient`.
pub data Dialling : Type 0 where
  dial_context : ℤ → Text → List DialOption → Dialling
  new_client : Text → List DialOption → Dialling

-- What was dialled, what was logged, and the result.
pub record Outcome : Type 0 where
  pub dialled : Option Dialling
  pub logged : Option LogRecord
  pub result : Result ℕ

abbrev pub credentials : DialConfig → DialOption
credentials cfg = if cfg.is_insecure then insecure_credentials else tls_credentials cfg.tls

abbrev pub dial_options : DialConfig → List DialOption → List DialOption
dial_options cfg extra = otel_stats ∷ unary_request_id ∷ stream_request_id ∷ credentials cfg ∷ extra

abbrev bool_text : Bool → Text
bool_text true = codes "true"
bool_text false = codes "false"

abbrev pub dialled_record : Logger → DialConfig → Text → LogRecord
dialled_record log cfg message = record {
  level = info;
  message = message;
  attrs = log ++ (codes "addr", cfg.addr) ∷ (codes "insecure", bool_text cfg.is_insecure) ∷ [];
}

abbrev pub outcome : Dialling → Text → LogRecord → Result ℕ → Outcome
outcome d prefix success (err e) = record {
  dialled = some d;
  logged = none;
  result = err (wrapped prefix e);
}
outcome d prefix success (ok conn) = record {
  dialled = some d;
  logged = some success;
  result = ok conn;
}

abbrev pub is_positive : ℤ → Bool
is_positive n = leb_ℤ (pos 1) n

unfoldable pub dial_grpc : (Dialling → Result ℕ) → Logger → DialConfig → List DialOption → Outcome
dial_grpc library log cfg extra =
    let opts = dial_options cfg extra in
    let blocking = dial_context cfg.timeout cfg.addr (opts ++ with_block ∷ []) in
    let lazy = new_client cfg.addr opts in
    if is_empty cfg.addr
    then record { dialled = none; logged = none; result = err (plain (codes "grpc addr is empty")) }
    else if is_positive cfg.timeout
    then outcome blocking (codes "dial grpc " ++ cfg.addr)
        (dialled_record log cfg (codes "grpc connected")) (library blocking)
    else outcome lazy (codes "new grpc client " ++ cfg.addr)
        (dialled_record log cfg (codes "grpc client created (lazy)")) (library lazy)
