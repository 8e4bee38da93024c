-- ===== src/Logger/Setup/Levels.antt =====
-- What a logger that `New` of logger/logger.go has made sends where.
use core_shared.Base.{
  text_eq, Text, codes, Bool-cases, inl, inr, List, [], ◌∷◌, ◌++◌, map, leb_ℤ, if◌then◌else◌, ◌≡◌,
  refl, sym, append-nil,
}
use core_shared.Logger.Slog.{level_debug, level_info, Record, text, added_attrs, Attr}
use core_shared.Logger.Otel.{OtelRecord, slog_attr_to_kv, slog_to_otel_severity, handle}
use core_shared.Logger.Fanout.{any_enabled, handle_all, handle_from}
use core_shared.Logger.Setup.{JsonHandler, Sinks, new_level, new, log}

abbrev pub service_attrs : Text → Text → List Attr
service_attrs service_name service_code =
    (codes "service.name", text service_name) ∷ (codes "service.code", text service_code) ∷ []

abbrev pub stdout_handler : Text → Text → Text → JsonHandler
stdout_handler service_name service_code env = record {
  min_level = if text_eq env (codes "development") then level_debug else level_info;
  add_source = text_eq env (codes "development");
  added = added_attrs (service_attrs service_name service_code) ∷ [];
}

-- What reaches stdout of a record.
abbrev pub lines : JsonHandler → Record → List (JsonHandler × Record)
lines h r = if leb_ℤ h.min_level r.level then (h, r) ∷ [] else []

-- A logger that `New` has made sends each record to OpenTelemetry, whatever its level and the
-- environment, with the two attributes of the service before its own and with the severity of
-- its level; and to stdout exactly those whose level is at least "debug" in the environment
-- "development", and at least "info" in the others.
pub log-new :
    (service_name service_code env : Text) (r : Record) (s : Sinks)
    → let s' = log (new service_name service_code env) r s in
      (s'.stdout ≡ s.stdout ++ lines (stdout_handler service_name service_code env) r)
      × ((o : OtelRecord) × (s'.otel ≡ s.otel ++ o ∷ [])
          × (o.attributes
              ≡ map (slog_attr_to_kv []) (service_attrs service_name service_code)
                ++ map (slog_attr_to_kv []) r.attrs)
          × (o.body ≡ r.message)
          × (o.severity ≡ slog_to_otel_severity r.level))
unfolding log new any_enabled handle_all handle_from handle
log-new service_name service_code env r s = elim (Bool-cases (leb_ℤ (new_level env) r.level)) [
  | inl shown ↦ rw shown (refl, (_, refl, refl, refl, refl))
  | inr hidden ↦ rw hidden (sym (append-nil s.stdout), (_, refl, refl, refl, refl))
]
