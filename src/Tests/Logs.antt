-- ===== src/Tests/Logs.antt =====
-- The handlers of logger/ at concrete inputs.
use core_shared.Base.{
  arith, if◌then◌else◌, ltb, not, ◌==◌, ℕ, codes, text_eq, List, [], ◌∷◌, ◌++◌, map, Option, none,
  some, pos, negsuc, ◌≡◌, refl,
}
use core_shared.Apperror.{Error, plain}
use core_shared.Json.{decimal}
use core_shared.Logger.Slog.{
  level_info, level_debug, level_text, text, int, Record, Handler, Added, added_attrs, added_group,
}
use core_shared.Logger.Otel.{
  OtelRecord, int64_value, string_value, slog_value_to_otel_value, slog_attr_to_kv,
  slog_to_otel_severity, new_otel_handler,
}
use core_shared.Logger.Otel.Keys.{extended, qualified, emitted_attributes, handle-qualified}
use core_shared.Logger.Fanout.{handle_all}
use core_shared.Logger.Fanout.Dispatch.{run_each, enabled_children, summary, handle_all-run_each}
use core_shared.Logger.Setup.{Sinks, new, log}
use core_shared.Logger.Setup.Levels.{service_attrs, log-new}

abbrev started : Record
started = record {
  time_stamp = 7;
  level = level_info;
  message = codes "started";
  attrs = (codes "port", int (pos 80)) ∷ [];
}

abbrev hidden : Record
hidden = record started { level = level_debug }

level_names :
    (level_text level_info ≡ codes "INFO")
    × (level_text (pos 9) ≡ codes "ERROR+1")
    × (level_text (negsuc 4) ≡ codes "DEBUG-1")
unfolding level_text decimal
level_names = (refl, refl, refl)

abbrev in_group : List Added
in_group =
    added_group (codes "http")
    ∷ added_group (codes "in")
    ∷ added_attrs ((codes "user", text (codes "u")) ∷ [])
    ∷ []

grouped :
    qualified [] in_group started
    ≡ (codes "http.in.user", string_value (codes "u"))
      ∷ (codes "http.in.port", int64_value (pos 80))
      ∷ []
unfolding slog_value_to_otel_value
grouped = refl

handle-qualified_example :
    emitted_attributes (extended in_group (new_otel_handler (codes "svc"))) started
    ≡ qualified [] in_group started
handle-qualified_example =
    handle-qualified (codes "svc") in_group started tt (ground arith, (ground arith, tt))

-- Handlers that note their number: the second is off, the third and the fourth fail.
abbrev answer : ℕ → Option Error
answer n = if ltb n 3 then none else some (plain (decimal n))

abbrev numbered : Handler ℕ (List ℕ)
numbered = record {
  is_enabled = λ n _. not (n == 2);
  handle = λ n r s. (s ++ n ∷ [], answer n);
  with_attrs = λ _ n. n;
  with_group = λ _ n. n;
}

handle_all-run_each_example :
    handle_all numbered (1 ∷ 2 ∷ 3 ∷ 4 ∷ []) started []
    ≡ summary numbered
        (run_each numbered (enabled_children numbered level_info (1 ∷ 2 ∷ 3 ∷ 4 ∷ [])) started [])
handle_all-run_each_example = handle_all-run_each numbered (1 ∷ 2 ∷ 3 ∷ 4 ∷ []) started []

dispatched :
    handle_all numbered (1 ∷ 2 ∷ 3 ∷ 4 ∷ []) started [] ≡ (1 ∷ 3 ∷ 4 ∷ [], some (plain (codes "3")))
unfolding handle_all decimal
dispatched = refl

abbrev no_logs : Sinks
no_logs = record { stdout = []; otel = [] }

-- A record below "info" in production.
log-new_example :
    let s' = log (new (codes "svc") (codes "URS") (codes "production")) hidden no_logs in
    (s'.stdout ≡ [])
    × ((o : OtelRecord) × (s'.otel ≡ o ∷ [])
        × (o.attributes
            ≡ map (slog_attr_to_kv []) (service_attrs (codes "svc") (codes "URS"))
              ++ map (slog_attr_to_kv []) hidden.attrs)
        × (o.body ≡ codes "started")
        × (o.severity ≡ slog_to_otel_severity level_debug))
unfolding text_eq
log-new_example = log-new (codes "svc") (codes "URS") (codes "production") hidden no_logs
