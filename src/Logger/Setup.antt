-- ===== src/Logger/Setup.antt =====
-- logger/logger.go: `New`, over the JSON handler of slog on stdout and the handler of OpenTelemetry.
pub mod Levels
use core_shared.Base.{
  Text, codes, Bool, true, false, Option, none, some, List, [], ◌∷◌, ◌++◌, text_eq, map, ℤ, leb_ℤ,
  if◌then◌else◌,
}
use core_shared.Apperror.{Error}
use core_shared.Logger.Slog.{
  level_debug, level_info, text, Attr, Record, Handler, Added, added_attrs, added_group,
}
use core_shared.Logger.Otel.{OtelRecord, OtelHandler, new_otel_handler, otel_handler}
use core_shared.Logger.Fanout.{fanout_handler}

-- `slog.NewJSONHandler` on stdout: its options, and what was added to it.
pub record JsonHandler : Type 0 where
  pub min_level : ℤ
  pub add_source : Bool
  pub added : List Added

pub data Child : Type 0 where
  to_stdout : JsonHandler → Child
  to_otel : OtelHandler → Child

-- Writing to stdout does not fail here. A line on it is made of the handler and the record.
pub record Sinks : Type 0 where
  pub stdout : List (JsonHandler × Record)
  pub otel : List OtelRecord

abbrev pub on_otel : Sinks → List OtelRecord × Option Error → Sinks × Option Error
on_otel s (emitted, e) = (record s { otel = emitted }, e)

abbrev pub child_enabled : Child → ℤ → Bool
child_enabled (to_stdout h) level = leb_ℤ h.min_level level
child_enabled (to_otel h) level = otel_handler.is_enabled h level

abbrev pub child_handle : Child → Record → Sinks → Sinks × Option Error
child_handle (to_stdout h) r s = (record s { stdout = s.stdout ++ (h, r) ∷ [] }, none)
child_handle (to_otel h) r s = on_otel s (otel_handler.handle h r s.otel)

abbrev pub child_with_attrs : List Attr → Child → Child
child_with_attrs attrs (to_stdout h) =
    to_stdout (record h { added = h.added ++ added_attrs attrs ∷ [] })
child_with_attrs attrs (to_otel h) = to_otel (otel_handler.with_attrs attrs h)

abbrev pub child_with_group : Text → Child → Child
child_with_group name (to_stdout h) =
    to_stdout (record h { added = h.added ++ added_group name ∷ [] })
child_with_group name (to_otel h) = to_otel (otel_handler.with_group name h)

abbrev pub child_handler : Handler Child Sinks
child_handler = record {
  is_enabled = child_enabled;
  handle = child_handle;
  with_attrs = child_with_attrs;
  with_group = child_with_group;
}

abbrev pub is_development : Text → Bool
is_development env = text_eq env (codes "development")

abbrev pub new_level : Text → ℤ
new_level env = if is_development env then level_debug else level_info

-- The handler of the logger that `New` returns.
unfoldable pub new : Text → Text → Text → List Child
new service_name service_code env =
    (fanout_handler child_handler).with_attrs
      ((codes "service.name", text service_name) ∷ (codes "service.code", text service_code) ∷ [])
      (to_stdout (record { min_level = new_level env; add_source = is_development env; added = [] })
        ∷ to_otel (new_otel_handler service_name)
        ∷ [])

-- `Logger.Log` of slog: the handler is asked first.
unfoldable pub log : List Child → Record → Sinks → Sinks
log h r s =
    if (fanout_handler child_handler).is_enabled h r.level
    then ((fanout_handler child_handler).handle h r s).0
    else s
