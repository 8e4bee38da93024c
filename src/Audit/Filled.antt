-- ===== src/Audit/Filled.antt =====
-- Events that audit/kafka_emitter.go has filled.
use core_shared.Base.{text_or, ℕ, Text, Option, none, some, [], ◌∷◌, ◌≡◌, ◌≢◌, refl, arith}
use core_shared.Http.Ctx.{Context}
use core_shared.Middleware.RequestId.{get_request_id}
use core_shared.Audit.{Event, Clock, span_trace_id, time_or, version_or, new_id, fill}

text_or-again : (s d : Text) → text_or (text_or s d) d ≡ text_or s d
text_or-again [] [] = refl
text_or-again [] (c ∷ d) = refl
text_or-again (c ∷ s) d = refl

text_or-kept : (s d d' : Text) → d ≢ [] → text_or (text_or s d) d' ≡ text_or s d
text_or-kept [] [] d' h = absurd (h refl)
text_or-kept [] (c ∷ d) d' h = refl
text_or-kept (c ∷ s) d d' h = refl

time_or-kept : (t : Option ℕ) (n n' : ℕ) → time_or (time_or t n) n' ≡ time_or t n
time_or-kept none n n' = refl
time_or-kept (some t) n n' = refl

version_or-again : (v : ℕ) → version_or (version_or v) ≡ version_or v
version_or-again v = ground arith

-- Where the new id is not empty, an event that has been filled is not changed when it is filled
-- again in the same context for the same service, at whatever time and with whatever new id: an
-- event that is emitted again keeps its id.
pub fill-fill :
    (service : Text) (first later : Clock) (ctx : Context) (event : Event)
    → new_id first ≢ []
    → fill service later ctx (fill service first ctx event) ≡ fill service first ctx event
unfolding fill
fill-fill service first later ctx event h = λ i. record event {
  event_id = text_or-kept event.event_id (new_id first) (new_id later) h i;
  occurred_at = time_or-kept event.occurred_at first.now later.now i;
  service = text_or-again event.service service i;
  schema_version = version_or-again event.schema_version i;
  request_id = text_or-again event.request_id (get_request_id ctx) i;
  trace_id = text_or-again event.trace_id (span_trace_id ctx.span) i;
}
