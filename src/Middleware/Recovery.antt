-- ===== src/Middleware/Recovery.antt =====
-- middleware/recovery.go. `stack` is the text of `debug.Stack`.
pub mod Laws
use core_shared.Base.{Text, codes, [], ◌∷◌, ◌++◌}
use core_shared.Apperror.{nil}
use core_shared.Http.{Handler, Writer, Request, Exit, returned, panicked, LogRecord, error}
use core_shared.Http.Ctx.{Logger}
use core_shared.Middleware.RequestId.{get_request_id}
use core_shared.Response

abbrev pub panic_record : Logger → Text → Request → Text → LogRecord
panic_record log stack r m = record {
  level = error;
  message = codes "panic recovered";
  attrs =
      log
      ++ ((codes "error", m)
          ∷ (codes "stack", stack)
          ∷ (codes "method", r.method)
          ∷ (codes "path", r.path)
          ∷ (codes "request_id", get_request_id r.context)
          ∷ []);
}

-- The deferred function, on how the handler ended.
unfoldable pub deferred : (S : Type 0) → Writer S → Logger → Text → Request → S × Exit → S × Exit
deferred S w log stack r (s, returned) = (s, returned)
deferred S w log stack r (s, panicked m) =
    Response.error S w nil (w.log (panic_record log stack r m) s)

unfoldable pub recovery : Logger → Text → Handler → Handler
unfolding deferred
recovery log stack next S w r s = deferred S w log stack r (next S w r s)
