-- ===== src/Tests/Startup.antt =====
-- camunda/, telemetry/ and audit/ at concrete inputs.
use core_shared.Base.{
  List, ◌∷◌, arith, Text, codes, true, false, Option, none, some, [], ◌++◌, has_prefix, ◌≡◌, refl,
}
use core_shared.Apperror.{Error, plain}
use core_shared.Json.{done}
use core_shared.Audit
use core_shared.Audit.{Clock, fill, emit}
use core_shared.Audit.Trail.{WriterLaw, Emitted, emit-Emitted}
use core_shared.Middleware.RequestId.{request_context}
use core_shared.Kafka.Consumer.{Message}
use core_shared.Kafka.Producer.{Topic}
use core_shared.Http.{Request}
use core_shared.Http.Ctx.{background}
use core_shared.Http.HeaderMap.{header_get}
use core_shared.Camunda.{
  Config, OauthConfig, basic, base64, basic_credentials, apply_credentials, build_zbc_config,
}
use core_shared.Camunda.BasicAuth.{read_basic, basic_credentials_round_trip}
use core_shared.Http.HeaderMap.{look}
use core_shared.Returns.{Result, ok}
use core_shared.Camunda.Accepted.{IsSafe, build_zbc_config-IsSafe}
use core_shared.Telemetry
use core_shared.Telemetry.{Otel, Signal, traces, metrics, logs, init}
use core_shared.Telemetry.Cleanup.{IsClean, init-IsClean}

abbrev behind_proxy : Config
behind_proxy = record {
  mode = codes "self-managed";
  gateway_address = codes "zeebe:26500";
  plaintext = false;
  ca_cert_path = [];
  auth = codes "basic";
  username = codes "core";
  password = codes "secret";
  oauth_client_id = [];
  oauth_client_secret = [];
  oauth_audience = [];
  oauth_auth_url = [];
  oauth_scope = [];
  cluster_id = [];
  region = [];
}

abbrev always : OauthConfig → Option Error
always _ = none

abbrev verbatim : Text → Text
verbatim s = s

base64_run : base64 (codes "core:secret") ≡ codes "Y29yZTpzZWNyZXQ="
unfolding base64
base64_run = refl

basic_credentials_round_trip_example :
    (header : Text) × (basic_credentials always verbatim behind_proxy ≡ ok (some (basic header)))
    × (read_basic (look (codes "Authorization") (apply_credentials header []))
        ≡ some (codes "core", codes "secret"))
basic_credentials_round_trip_example =
    basic_credentials_round_trip always verbatim behind_proxy [] refl refl (ground arith)
      (ground arith) (ground arith)

-- A colon in the name of the user moves to the password.
colon_run :
    read_basic (codes "Basic " ++ base64 (codes "a:b" ++ codes ":c"))
    ≡ some (codes "a", codes "b:c")
unfolding read_basic base64 has_prefix
colon_run = refl

build_zbc_config-IsSafe_example :
    IsSafe behind_proxy (build_zbc_config always verbatim behind_proxy)
build_zbc_config-IsSafe_example = build_zbc_config-IsSafe always verbatim behind_proxy

abbrev signoz : Telemetry.Config
signoz = record {
  endpoint = codes "signoz:4317";
  insecure = true;
  sample_rate = codes "0.5";
  service_name = codes "files";
  service_code = codes "FLS";
  env = codes "dev";
}

abbrev no_logs : Signal → Option Error
no_logs logs = some (plain (codes "refused"))
no_logs s = none

abbrev otel : Otel
otel = record { merge = λ _. none; new_exporter = λ s _. no_logs s; shutdown = λ _. none }

init-IsClean_example : IsClean otel (init otel signoz [] [])
init-IsClean_example = init-IsClean otel signoz []

abbrev provisioned : Audit.Event
provisioned = record {
  event_id = [];
  occurred_at = none;
  service = [];
  actor = record {
    actor_type = codes "USER";
    id = codes "7";
    email = [];
    ip = [];
    user_agent = [];
  };
  action = codes "AGENT_PROVISION";
  entity = record { entity_type = codes "AGENT"; id = codes "9"; name = [] };
  outcome = codes "SUCCESS";
  error_code = [];
  request_id = [];
  trace_id = [];
  metadata = done;
  schema_version = 0;
}

abbrev first_clock : Clock
first_clock = record { new_v7 = some (codes "id-1"); new_string = codes "id-2"; now = 5 }

-- The JSON text stands for the id alone here.
abbrev to_text : Audit.Event → Result Text
to_text event = ok event.event_id

abbrev posted : Request
posted = record {
  method = codes "POST";
  path = codes "/agents";
  headers = [];
  remote_addr = [];
  user_agent = [];
  context = background;
}

abbrev filled : Audit.Event
filled = fill (codes "agents") first_clock (request_context (codes "req-1") posted) provisioned

abbrev empty_topic : Topic
empty_topic = record { written = []; logs = [] }

-- The writer has retried.
abbrev twice : Message → List Message × Option Error
twice m = (m ∷ m ∷ [], none)

twice-WriterLaw : WriterLaw twice [] to_text
twice-WriterLaw = record { copies = λ m. (refl, (refl, tt)); written = λ m _. (ground arith) }

emit-Emitted_example :
    Emitted twice [] to_text filled empty_topic (
      emit twice [] to_text
        (codes "agents")
        first_clock
        (request_context (codes "req-1") posted)
        provisioned
        empty_topic)
    × (filled.request_id ≡ codes "req-1")
unfolding fill header_get
emit-Emitted_example =
    emit-Emitted twice [] to_text twice-WriterLaw (codes "agents") first_clock (codes "req-1")
      posted provisioned empty_topic
