-- ===== src/Middleware/Logging.antt =====
-- middleware/logging.go: the writer that notes the status and the size, and the middleware.
pub mod Laws
use core_shared.Base.{ℕ, ◌+◌, Text, codes, List, [], ◌∷◌, ◌++◌}
use core_shared.Json.{decimal}
use core_shared.Http.{Handler, Writer, Request, with_context, Exit, returned, panicked, info}
use core_shared.Http.Ctx.{Logger, logger_ctx, logger, with_value}
use core_shared.Middleware.RequestId.{get_request_id}

-- `statusWriter`: `inner` is the state of the writer inside.
pub record StatusWriter (S : Type 0) : Type 0 where
  pub inner : S
  pub status : ℕ
  pub size : ℕ

unfoldable pub status_writer : (S : Type 0) → Writer S → Writer (StatusWriter S)
status_writer S w = record {
  set_header = λ k v sw. record sw { inner = w.set_header k v sw.inner };
  write_header = λ code sw.
      let (s, exit) = w.write_header code sw.inner in
      (record { inner = s; status = code; size = sw.size }, exit);
  write = λ bytes sw.
      let (s, n) = w.write bytes sw.inner in
      (record { inner = s; status = sw.status; size = sw.size + n }, n);
  log = λ r sw. record sw { inner = w.log r sw.inner };
}

abbrev pub request_attrs : Request → Logger
request_attrs r =
    (codes "request_id", get_request_id r.context)
    ∷ (codes "method", r.method)
    ∷ (codes "path", r.path)
    ∷ []

abbrev pub completed_attrs : Request → Text → ℕ → ℕ → Logger
completed_attrs r duration status size =
    (codes "status", decimal status)
    ∷ (codes "size", decimal size)
    ∷ (codes "duration", duration)
    ∷ (codes "remote_addr", r.remote_addr)
    ∷ (codes "user_agent", r.user_agent)
    ∷ []

-- The end of a request, on how the handler ended: a panic passes through, and nothing is logged.
unfoldable pub completed :
    (S : Type 0) → Writer S → Logger → Text → Request → StatusWriter S × Exit → S × Exit
completed S w req_logger duration r (sw, returned) = (
  w.log
      (record {
        level = info;
        message = codes "request completed";
        attrs = req_logger ++ completed_attrs r duration sw.status sw.size;
      })
      sw.inner,
  returned,
)
completed S w req_logger duration r (sw, panicked m) = (sw.inner, panicked m)

-- `duration` is what `time.Since` gives at the end.
unfoldable pub logging : Logger → Text → Handler → Handler
unfolding status_writer completed
logging log duration next S w r s =
    let req_logger : Logger = log ++ request_attrs r in
    completed S w req_logger duration r (
      next (StatusWriter S) (status_writer S w)
        (with_context r (with_value r.context logger_ctx (logger req_logger)))
        (record { inner = s; status = 200; size = 0 }))
