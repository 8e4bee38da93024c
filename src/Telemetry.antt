-- ===== src/Telemetry.antt =====
-- telemetry/telemetry.go: the exporters and providers that `Init` makes, and what it undoes. What
-- the OpenTelemetry library answers is an argument, and the calls are noted in a trace.
pub mod Cleanup
use core_shared.Base.{
  ℕ, Text, codes, Bool, true, false, Option, none, some, List, [], ◌∷◌, ◌++◌, is_empty,
  if◌then◌else◌,
}
use core_shared.Apperror.{Error, wrapped, joined, Errors, end, also, MaybeError, nil, because}
use core_shared.Returns.{Result, ok, err}
use core_shared.Http.{LogRecord, info}
use core_shared.Http.Ctx.{Logger}

-- `sample_rate` is the number as `slog` prints it.
pub record Config : Type 0 where
  pub endpoint : Text
  pub insecure : Bool
  pub sample_rate : Text
  pub service_name : Text
  pub service_code : Text
  pub env : Text

pub data Signal : Type 0 where
  traces metrics logs : Signal

-- What an exporter is made with; without `insecure` it gets TLS credentials.
pub record ExporterOptions : Type 0 where
  pub endpoint : Text
  pub timeout_seconds : ℕ
  pub insecure : Bool

pub record Resource : Type 0 where
  pub service_name : Text
  pub service_code : Text
  pub env : Text

-- What a provider is made with beside its exporter: the traces have a sampler that follows the
-- parent's choice and else this rate, the metrics a reader with this interval.
pub record ProviderOptions : Type 0 where
  pub resource : Resource
  pub sample_rate : Option Text
  pub interval_seconds : Option ℕ

-- An exporter is made, or shut down; a provider over an exporter becomes
-- the global one; it is shut down, its exporter with it; the propagator is set; a log.
pub data Event : Type 0 where
  exporter_made : Signal → ExporterOptions → Event
  exporter_shut : Signal → Event
  provider_set : Signal → ProviderOptions → Event
  provider_shut : Signal → Event
  propagator_set : Event
  logged : LogRecord → Event

-- The errors of the library's calls.
pub record Otel : Type 0 where
  pub merge : Resource → Option Error
  pub new_exporter : Signal → ExporterOptions → Option Error
  pub shutdown : Signal → Option Error

-- The function that `Init` returns.
pub data Shutdown : Type 0 where
  no_op all_providers : Shutdown

abbrev pub exporter_options : Config → ExporterOptions
exporter_options cfg = record {
  endpoint = cfg.endpoint;
  timeout_seconds = 10;
  insecure = cfg.insecure;
}

abbrev pub resource_of : Config → Resource
resource_of cfg = record {
  service_name = cfg.service_name;
  service_code = cfg.service_code;
  env = cfg.env;
}

abbrev pub initialized : Config → Logger → LogRecord
initialized cfg log = record {
  level = info;
  message = codes "signoz telemetry initialized";
  attrs =
      log
      ++ (codes "endpoint", cfg.endpoint)
        ∷ (codes "insecure", if cfg.insecure then codes "true" else codes "false")
        ∷ (codes "sample_rate", cfg.sample_rate)
        ∷ [];
}

-- The three providers over their exporters.
abbrev pub provider_options : Config → Signal → ProviderOptions
provider_options cfg traces = record {
  resource = resource_of cfg;
  sample_rate = some cfg.sample_rate;
  interval_seconds = none;
}
provider_options cfg metrics = record {
  resource = resource_of cfg;
  sample_rate = none;
  interval_seconds = some 30;
}
provider_options cfg logs = record {
  resource = resource_of cfg;
  sample_rate = none;
  interval_seconds = none;
}

abbrev pub install : Config → Logger → List Event → List Event
install cfg log w =
    w
    ++ provider_set traces (provider_options cfg traces)
      ∷ provider_set metrics (provider_options cfg metrics)
      ∷ provider_set logs (provider_options cfg logs)
      ∷ propagator_set
      ∷ logged (initialized cfg log)
      ∷ []

module _ (otel : Otel) (cfg : Config) (log : Logger) where
  -- From the answer to each constructor of an exporter on.
  unfoldable pub after_logs : Option Error → List Event → List Event × Result Shutdown
  after_logs (some e) w = (
    w ++ exporter_shut traces ∷ exporter_shut metrics ∷ [],
    err (wrapped (codes "create otlp log exporter") e),
  )
  after_logs none w =
      (install cfg log (w ++ exporter_made logs (exporter_options cfg) ∷ []), ok all_providers)

  unfoldable pub after_metrics : Option Error → List Event → List Event × Result Shutdown
  unfolding after_logs
  after_metrics (some e) w =
      (w ++ exporter_shut traces ∷ [], err (wrapped (codes "create otlp metric exporter") e))
  after_metrics none w =
      after_logs (otel.new_exporter logs (exporter_options cfg))
        (w ++ exporter_made metrics (exporter_options cfg) ∷ [])

  unfoldable pub after_traces : Option Error → List Event → List Event × Result Shutdown
  unfolding after_metrics
  after_traces (some e) w = (w, err (wrapped (codes "create otlp trace exporter") e))
  after_traces none w =
      after_metrics (otel.new_exporter metrics (exporter_options cfg))
        (w ++ exporter_made traces (exporter_options cfg) ∷ [])

  unfoldable pub after_resource : Option Error → List Event → List Event × Result Shutdown
  unfolding after_traces
  after_resource (some e) w = (w, err (wrapped (codes "build otel resource") e))
  after_resource none w = after_traces (otel.new_exporter traces (exporter_options cfg)) w

  abbrev pub disabled : LogRecord
  disabled = record {
    level = info;
    message = codes "signoz disabled (SIGNOZ_ENDPOINT empty)";
    attrs = log;
  }

  unfoldable pub init : List Event → List Event × Result Shutdown
  unfolding after_resource
  init w =
      if is_empty cfg.endpoint
      then (w ++ logged disabled ∷ [], ok no_op)
      else after_resource (otel.merge (resource_of cfg)) w

abbrev pub and_error : Option Error → Errors → Errors
and_error none es = es
and_error (some e) es = also e es

-- `errors.Join` of errors of which the nil ones are left out
abbrev pub join : Errors → MaybeError
join end = nil
join (also e es) = because (joined (also e es))

unfoldable pub run_shutdown : Otel → Shutdown → List Event → List Event × MaybeError
run_shutdown otel no_op w = (w, nil)
run_shutdown otel all_providers w = (
  w ++ provider_shut traces ∷ provider_shut metrics ∷ provider_shut logs ∷ [],
  join (
      and_error (otel.shutdown traces)
        (and_error (otel.shutdown metrics) (and_error (otel.shutdown logs) end))),
)
