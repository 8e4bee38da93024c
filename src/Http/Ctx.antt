-- ===== src/Http/Ctx.antt =====
-- `context.Context` as the code uses it: values under the packages' private keys, gRPC metadata,
-- and the span of the trace. `WithValue` hides an older value of the same key.
use core_shared.Base.{Text, Option, none, some, List, [], ◌∷◌}

-- A structured attribute with a text for its value.
abbrev pub Attr : Type 0
Attr = Text × Text

-- A `*slog.Logger` is the attributes that `With` has added, in order.
abbrev pub Logger : Type 0
Logger = List Attr

-- The keys are types private to a package: two packages each have a `requestIDKey`.
pub data Key : Type 0 where
  middleware_request_id : Key
  logger_request_id : Key
  logger_ctx : Key

pub data Value : Type 0 where
  text : Text → Value
  logger : Logger → Value

-- Metadata of gRPC: keys in lower case with their values, in order.
abbrev pub Metadata : Type 0
Metadata = List (Text × Text)

-- `span` holds the trace and span ids of a valid span context.
pub record Context : Type 0 where
  pub values : List (Key × Value)
  pub incoming : Option Metadata
  pub outgoing : Metadata
  pub span : Option (Text × Text)

abbrev same_key : Key → Key → Option (Unit {0})
same_key middleware_request_id middleware_request_id = some tt
same_key logger_request_id logger_request_id = some tt
same_key logger_ctx logger_ctx = some tt
same_key _ _ = none

abbrev pub background : Context
background = record { values = []; incoming = none; outgoing = []; span = none }

abbrev pub with_value : Context → Key → Value → Context
with_value ctx k v = record ctx { values = (k, v) ∷ ctx.values }

abbrev find_value : Key → List (Key × Value) → Option Value
find_value k [] = none
find_value k ((j, v) ∷ kvs) = elim (same_key j k) [ some _ ↦ some v | none ↦ find_value k kvs ]

-- `ctx.Value(k)`
abbrev pub value : Context → Key → Option Value
value ctx k = find_value k ctx.values
