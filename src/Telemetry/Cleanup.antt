-- ===== src/Telemetry/Cleanup.antt =====
-- What is left of the exporters of telemetry/telemetry.go.
use core_shared.Base.{
  Bool, true, false, Option, none, some, List, [], ◌∷◌, is_empty, if◌then◌else◌, ◌≡◌, refl,
}
use core_shared.Apperror.{Error}
use core_shared.Returns.{Result, ok, err}
use core_shared.Http.Ctx.{Logger}
use core_shared.Telemetry.{
  Config, Signal, traces, metrics, logs, Event, exporter_made, exporter_shut, provider_set,
  provider_shut, logged, Otel, Shutdown, no_op, all_providers, resource_of, exporter_options,
  disabled, after_logs, after_metrics, after_traces, after_resource, init, run_shutdown,
}

abbrev same_signal : Signal → Signal → Bool
same_signal traces traces = true
same_signal metrics metrics = true
same_signal logs logs = true
same_signal a b = false

abbrev removed : Signal → List Signal → List Signal
removed s [] = []
removed s (t ∷ ts) = if same_signal s t then ts else t ∷ removed s ts

-- The exporters that are open after a trace, where those are open before it.
unfoldable pub open_exporters : List Signal → List Event → List Signal
open_exporters ss [] = ss
open_exporters ss (exporter_made s o ∷ es) = open_exporters (s ∷ ss) es
open_exporters ss (exporter_shut s ∷ es) = open_exporters (removed s ss) es
open_exporters ss (provider_shut s ∷ es) = open_exporters (removed s ss) es
open_exporters ss (e ∷ es) = open_exporters ss es

-- The signals whose global provider a trace sets, in order.
unfoldable pub providers_set : List Event → List Signal
providers_set [] = []
providers_set (provider_set s r ∷ es) = s ∷ providers_set es
providers_set (e ∷ es) = providers_set es

abbrev pub IsClean : Otel → List Event × Result Shutdown → Type 0
IsClean otel (w, err e) = (open_exporters [] w ≡ []) × (providers_set w ≡ [])
IsClean otel (w, ok no_op) = (open_exporters [] w ≡ []) × (providers_set w ≡ [])
IsClean otel (w, ok all_providers) =
    (providers_set w ≡ traces ∷ metrics ∷ logs ∷ [])
    × (open_exporters [] (run_shutdown otel all_providers w).0 ≡ [])

module _ (otel : Otel) (cfg : Config) (log : Logger) where
  after_logs-IsClean :
      (e : Option Error)
      → IsClean otel (
          after_logs otel cfg log e (
            exporter_made traces (exporter_options cfg)
            ∷ exporter_made metrics (exporter_options cfg)
            ∷ []))
  unfolding after_logs open_exporters providers_set run_shutdown
  after_logs-IsClean (some e) = (refl, refl)
  after_logs-IsClean none = (refl, refl)

  after_metrics-IsClean :
      (e : Option Error)
      → IsClean otel
          (after_metrics otel cfg log e (exporter_made traces (exporter_options cfg) ∷ []))
  unfolding after_metrics open_exporters providers_set
  after_metrics-IsClean (some e) = (refl, refl)
  after_metrics-IsClean none = after_logs-IsClean (otel.new_exporter logs (exporter_options cfg))

  after_traces-IsClean : (e : Option Error) → IsClean otel (after_traces otel cfg log e [])
  unfolding after_traces open_exporters providers_set
  after_traces-IsClean (some e) = (refl, refl)
  after_traces-IsClean none =
      after_metrics-IsClean (otel.new_exporter metrics (exporter_options cfg))

  after_resource-IsClean : (e : Option Error) → IsClean otel (after_resource otel cfg log e [])
  unfolding after_resource open_exporters providers_set
  after_resource-IsClean (some e) = (refl, refl)
  after_resource-IsClean none =
      after_traces-IsClean (otel.new_exporter traces (exporter_options cfg))

  -- If `Init` fails, or the endpoint is empty, no exporter is left open and no global provider is
  -- set. Otherwise the three providers are set, and the function that it returns leaves no
  -- exporter open.
  pub init-IsClean : IsClean otel (init otel cfg log [])
  unfolding init open_exporters providers_set
  init-IsClean = chosen (is_empty cfg.endpoint)
    where
      chosen :
          (b : Bool)
          → IsClean otel (
              if b
              then (logged (disabled otel cfg log) ∷ [], ok no_op)
              else after_resource otel cfg log (otel.merge (resource_of cfg)) [])
      chosen true = (refl, refl)
      chosen false = after_resource-IsClean (otel.merge (resource_of cfg))
