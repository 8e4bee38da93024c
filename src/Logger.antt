-- ===== src/Logger.antt =====
-- logger/: the logger in the context here; the handlers behind it in the children.
pub mod Slog
pub mod Otel
pub mod Fanout
pub mod Setup
use core_shared.Base.{Text, codes, Option, none, some, [], ◌∷◌, ◌++◌}
use core_shared.Apperror.{message_of, MaybeError, nil, because, AppError, as_app}
use core_shared.Http.Ctx.{
  Context, Logger, Value, text, logger, logger_ctx, logger_request_id, with_value, value,
}

unfoldable pub with_context : Context → Logger → Context
with_context ctx l = with_value ctx logger_ctx (logger l)

unfoldable pub with_request_id : Context → Text → Context
with_request_id ctx rid = with_value ctx logger_request_id (text rid)

abbrev logger_or : Logger → Option Value → Logger
logger_or default (some (logger l)) = l
logger_or default _ = default

abbrev pub span_attrs : Option (Text × Text) → Logger
span_attrs none = []
span_attrs (some (trace_id, span_id)) =
    (codes "trace.id", trace_id) ∷ (codes "span.id", span_id) ∷ []

abbrev request_attrs : Option Value → Logger
request_attrs (some (text [])) = []
request_attrs (some (text (c ∷ rid))) = (codes "request.id", c ∷ rid) ∷ []
request_attrs _ = []

-- `default` is the process's default logger.
unfoldable pub from_context : Logger → Context → Logger
from_context default ctx =
    (logger_or default (value ctx logger_ctx) ++ span_attrs ctx.span)
    ++ request_attrs (value ctx logger_request_id)

unfoldable pub err_as_app : MaybeError → Option AppError
err_as_app nil = none
err_as_app (because e) = as_app (because e)

abbrev app_attrs : Option AppError → Logger
app_attrs none = []
app_attrs (some a) =
    (codes "error.code", a.code)
    ∷ (codes "error.class", a.class)
    ∷ (codes "error.feature", a.feature)
    ∷ []

-- What `LogError` logs, the logger's own attributes first; `none` for a nil logger takes that of
-- the context. A nil error panics, as its method `Error` is called.
unfoldable pub log_error : Logger → Context → Option Logger → MaybeError → Logger → Option Logger
unfolding err_as_app
log_error default ctx l nil attrs = none
log_error default ctx l (because e) attrs =
    let base : Logger = elim l [ none ↦ from_context default ctx | some given ↦ given ] in
    some (
      base
      ++ (attrs ++ ((codes "error.message", message_of e) ∷ app_attrs (err_as_app (because e)))))
