-- ===== src/Logger/Otel.antt =====
-- logger/otel_handler.go: records of slog as records of OpenTelemetry.
pub mod Keys
use core_shared.Base.{
  ℕ, Text, codes, Bool, true, Option, none, List, [], ◌∷◌, ◌++◌, is_empty, map, if◌then◌else◌, ℤ,
  int64, leb_ℤ,
}
use core_shared.Apperror.{Error}
use core_shared.Logger.Slog.{
  level_info, level_warn, level_error, level_text, Value, bool, float64, int, uint, text, time,
  duration, other, group, Attrs, nil, attr, Attr, Record, Handler,
}

pub data Severity : Type 0 where
  debug_severity info_severity warn_severity error_severity : Severity

-- `otellog.Value` and lists of `otellog.KeyValue` inside a value.
mutual
  pub data OtelValue : Type 0 where
    bool_value : Bool → OtelValue
    float64_value : ℕ → OtelValue
    int64_value : ℤ → OtelValue
    string_value : Text → OtelValue
    map_value : KeyValues → OtelValue

  pub data KeyValues : Type 0 where
    done : KeyValues
    entry : Text → OtelValue → KeyValues → KeyValues

abbrev pub KeyValue : Type 0
KeyValue = Text × OtelValue

pub record OtelRecord : Type 0 where
  pub scope : Text
  pub time_stamp : ℕ
  pub body : Text
  pub severity : Severity
  pub severity_text : Text
  pub attributes : List KeyValue

pub record OtelHandler : Type 0 where
  pub scope : Text
  pub attrs : List Attr
  pub group_path : Text

abbrev pub new_otel_handler : Text → OtelHandler
new_otel_handler scope = record { scope = scope; attrs = []; group_path = [] }

unfoldable pub slog_to_otel_severity : ℤ → Severity
slog_to_otel_severity l =
    if leb_ℤ level_error l
    then error_severity
    else if leb_ℤ level_warn l
    then warn_severity
    else if leb_ℤ level_info l
    then info_severity
    else debug_severity

unfoldable mutual
  pub slog_value_to_otel_value : Value → OtelValue
  slog_value_to_otel_value (bool b) = bool_value b
  slog_value_to_otel_value (float64 x) = float64_value x
  slog_value_to_otel_value (int n) = int64_value n
  slog_value_to_otel_value (uint n) = int64_value (int64 n)
  slog_value_to_otel_value (text s) = string_value s
  slog_value_to_otel_value (time s) = string_value s
  slog_value_to_otel_value (duration s) = string_value s
  slog_value_to_otel_value (group members) = map_value (group_entries members)
  slog_value_to_otel_value (other s) = string_value s

  pub group_entries : Attrs → KeyValues
  group_entries nil = done
  group_entries (attr k v rest) = entry k (slog_value_to_otel_value v) (group_entries rest)

-- The key of an attribute under a group path.
abbrev pub grouped_key : Text → Text → Text
grouped_key path k = if is_empty path then k else path ++ (b'.' ∷ k)

unfoldable pub slog_attr_to_kv : Text → Attr → KeyValue
unfolding slog_value_to_otel_value
slog_attr_to_kv path (k, v) = (grouped_key path k, slog_value_to_otel_value v)

-- The global provider's exporter is the list of what was emitted.
unfoldable pub handle : OtelHandler → Record → List OtelRecord → List OtelRecord × Option Error
unfolding slog_to_otel_severity slog_attr_to_kv
handle h r emitted = (
  emitted
      ++ record {
        scope = h.scope;
        time_stamp = r.time_stamp;
        body = r.message;
        severity = slog_to_otel_severity r.level;
        severity_text = level_text r.level;
        attributes =
            map (slog_attr_to_kv h.group_path) h.attrs
            ++ map (slog_attr_to_kv h.group_path) r.attrs;
      }
        ∷ [],
  none,
)

abbrev pub with_attrs : List Attr → OtelHandler → OtelHandler
with_attrs attrs h = record h { attrs = h.attrs ++ attrs }

abbrev pub with_group : Text → OtelHandler → OtelHandler
with_group name h = record h { group_path = grouped_key h.group_path name }

abbrev pub otel_handler : Handler OtelHandler (List OtelRecord)
otel_handler = record {
  is_enabled = λ _ _. true;
  handle = handle;
  with_attrs = with_attrs;
  with_group = with_group;
}
