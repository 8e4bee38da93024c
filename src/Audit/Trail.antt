-- ===== src/Audit/Trail.antt =====
-- What an emitter of audit/kafka_emitter.go adds to the topic, and when it reports an error.
use core_shared.Base.{
  Text, Option, none, some, List, [], ◌∷◌, ◌++◌, All, append-nil, text_or, ◌≡◌, ◌≢◌, ap, sym, refl,
}
use mathlib.Core.Path.{subst}
use core_shared.Apperror.{Error}
use core_shared.Returns.{Result, ok, err}
use core_shared.Http.{Request}
use core_shared.Http.Ctx.{Logger}
use core_shared.Middleware.RequestId.{get_request_id, chosen_id, request_context}
use core_shared.Kafka.Consumer.{Message}
use core_shared.Kafka.Producer.{Topic, publish, after_write, after_marshal}
use core_shared.Audit.{Event, Clock, fill, emit, wrap_error}

get_request_id-request_context :
    (uuid : Text) (r : Request) → get_request_id (request_context uuid r) ≡ chosen_id uuid r
unfolding get_request_id request_context
get_request_id-request_context uuid r = refl

All-same :
    (P : Message → Type 0) (m : Message) (ms : List Message) → P m → All (λ x. x ≡ m) ms → All P ms
All-same P m [] p h = tt
All-same P m (x ∷ ms) p (e, h) = (subst P (sym e) p, All-same P m ms p h)

module _ (write : Message → List Message × Option Error) (log : Logger)
    (marshal : Event → Result Text) where
  -- What kafka-go documents of `WriteMessages`: it writes copies of the message and of no other,
  -- with an error any number of them, and without an error at least one.
  pub record WriterLaw : Type 0 where
    pub copies : (m : Message) → All (λ x. x ≡ m) (write m).0
    pub written : (m : Message) → (write m).1 ≡ none → (write m).0 ≢ []

  -- The message is that of the event: under its id, with its JSON text.
  abbrev pub IsOf : Event → Message → Type 0
  IsOf event m = (m.key ≡ event.event_id) × (marshal event ≡ ok m.bytes)

  -- The topic is that before, with messages of the event behind it, and with at least one if no
  -- error is returned.
  pub record Emitted (event : Event) (t : Topic) (p : Topic × Option Error) : Type 0 where
    pub added : List Message
    pub written : p.0.written ≡ t.written ++ added
    pub of_event : All (IsOf event) added
    pub not_lost : p.1 ≡ none → added ≢ []

  written-Emitted :
      (event : Event) (m : Message) (answer : List Message × Option Error) (t : Topic)
      → All (IsOf event) answer.0
      → (answer.1 ≡ none → answer.0 ≢ [])
      → Emitted event t (wrap_error (after_write write log m answer t))
  written-Emitted event m (taken, none) t of_event not_lost = record {
    added = taken;
    written = refl;
    of_event = of_event;
    not_lost = λ _. not_lost refl;
  }
  written-Emitted event m (taken, some e) t of_event not_lost = record {
    added = taken;
    written = refl;
    of_event = of_event;
    not_lost = λ never. cc;
  }

  marshalled-Emitted :
      WriterLaw
      → (event : Event) (answer : Result Text) (t : Topic) → marshal event ≡ answer
      → Emitted event t (wrap_error (after_marshal write log event.event_id answer t))
  marshalled-Emitted law event (ok bytes) t made =
      let m : Message = record { key = event.event_id; bytes = bytes } in
      written-Emitted event m (write m) t
        (All-same (IsOf event) m (write m).0 (refl, made) (law.copies m)) (law.written m)
  marshalled-Emitted law event (err e) t made = record {
    added = [];
    written = sym (append-nil t.written);
    of_event = tt;
    not_lost = λ never. cc;
  }

  -- Where the writer does what kafka-go documents, `Emit` in a handler that has its context from
  -- RequestID adds to the topic messages of the filled event only, each under the event's id and
  -- with its JSON text; if it returns no error, it has added at least one, so that no event is lost
  -- without an error. The event has the id of the request, where it had none.
  pub emit-Emitted :
      WriterLaw
      → (service : Text) (clock : Clock) (uuid : Text) (r : Request) (event : Event) (t : Topic)
      → Emitted
          (fill service clock (request_context uuid r) event)
          t
          (emit write log marshal service clock (request_context uuid r) event t)
        × ((fill service clock (request_context uuid r) event).request_id
            ≡ text_or event.request_id (chosen_id uuid r))
  unfolding emit publish fill
  emit-Emitted law service clock uuid r event t = (
    marshalled-Emitted law (fill service clock (request_context uuid r) event) _ t refl,
    ap (text_or event.request_id) (get_request_id-request_context uuid r),
  )
