-- ===== src/Audit.antt =====
-- audit/: the event (event.go, action.go), the emitters (emitter.go, kafka_emitter.go), and what
-- `fill` puts into the fields that are left blank.
pub mod Filled
pub mod Trail
use core_shared.Base.{
  text_or, ℕ, Text, codes, Option, none, some, List, [], ◌∷◌, ◌==◌, is_empty, if◌then◌else◌,
}
use core_shared.Apperror.{Error, wrapped}
use core_shared.Returns.{Result}
use core_shared.Json.{Fields}
use core_shared.Http.Ctx.{Context, Logger}
use core_shared.Middleware.RequestId.{get_request_id}
use core_shared.Kafka.Consumer.{Message}
use core_shared.Kafka.Producer.{Topic, publish}

abbrev pub actor_type_user : Text
actor_type_user = codes "USER"

abbrev pub actor_type_system : Text
actor_type_system = codes "SYSTEM"

abbrev pub actor_type_worker : Text
actor_type_worker = codes "WORKER"

abbrev pub result_success : Text
result_success = codes "SUCCESS"

abbrev pub result_failure : Text
result_failure = codes "FAILURE"

pub record Actor : Type 0 where
  pub actor_type : Text
  pub id : Text
  pub email : Text
  pub ip : Text
  pub user_agent : Text

pub record Entity : Type 0 where
  pub entity_type : Text
  pub id : Text
  pub name : Text

-- `occurred_at` is a time, none for the zero time.
pub record Event : Type 0 where
  pub event_id : Text
  pub occurred_at : Option ℕ
  pub service : Text
  pub actor : Actor
  pub action : Text
  pub entity : Entity
  pub outcome : Text
  pub error_code : Text
  pub request_id : Text
  pub trace_id : Text
  pub metadata : Fields
  pub schema_version : ℕ

abbrev pub current_schema_version : ℕ
current_schema_version = 1

-- What the library answers to one call: `uuid.NewV7`, none for its error, `uuid.NewString`, and
-- `time.Now().UTC()`.
pub record Clock : Type 0 where
  pub new_v7 : Option Text
  pub new_string : Text
  pub now : ℕ

abbrev pub new_id : Clock → Text
new_id clock = elim clock.new_v7 [ some id ↦ id | none ↦ clock.new_string ]

abbrev pub time_or : Option ℕ → ℕ → Option ℕ
time_or none now = some now
time_or (some t) now = some t

abbrev pub version_or : ℕ → ℕ
version_or v = if v == 0 then current_schema_version else v

-- The trace id of the span of the context, if that is valid.
abbrev pub span_trace_id : Option (Text × Text) → Text
span_trace_id none = []
span_trace_id (some (trace_id, span_id)) = trace_id

unfoldable pub fill : Text → Clock → Context → Event → Event
fill service clock ctx event = record event {
  event_id = text_or event.event_id (new_id clock);
  occurred_at = time_or event.occurred_at clock.now;
  service = text_or event.service service;
  schema_version = version_or event.schema_version;
  request_id = text_or event.request_id (get_request_id ctx);
  trace_id = text_or event.trace_id (span_trace_id ctx.span);
}

abbrev pub wrap_error : Topic × Option Error → Topic × Option Error
wrap_error (t, none) = (t, none)
wrap_error (t, some e) = (t, some (wrapped (codes "publish audit event") e))

-- `KafkaEmitter.Emit`, for an emitter of `service` on a producer that writes so.
unfoldable pub emit :
    (Message → List Message × Option Error)
    → Logger
    → (Event → Result Text)
    → Text
    → Clock
    → Context
    → Event
    → Topic
    → Topic × Option Error
unfolding fill
emit write log marshal service clock ctx event t =
    let event' = fill service clock ctx event in
    wrap_error (publish write log marshal event'.event_id event' t)

-- `NoopEmitter.Emit`
abbrev pub emit_noop : Event → Topic → Topic × Option Error
emit_noop event t = (t, none)
