-- ===== src/Tests/Connections.antt =====
-- kafka/, redis/, client/grpc.go, validator/ and the row of middlewares at concrete inputs.
use core_shared.Base.{
  ℕ, Text, codes, true, false, text_eq, none, some, List, [], ◌∷◌, ◌++◌, ◌≡◌, ◌↔◌, ◌⊎◌, refl,
}
use core_shared.Apperror.{plain, err_bad_request}
use core_shared.Returns.{Result, err}
use core_shared.Json.{render}
use core_shared.Http.{
  Conn, new_conn, server, Request, Call, set_header, write_header, Exit, returned, panicked, play,
}
use core_shared.Http.HeaderMap.{header_set, canonical}
use core_shared.Http.Ctx.{background}
use core_shared.Response.{error}
use core_shared.Response.Envelope.{error_object}
use core_shared.Kafka.Config
use core_shared.Kafka.Config.{
  Hash, Mechanism, plain_mechanism, build_sasl_mechanism, named_mechanism, new_dialer, transport,
}
use core_shared.Kafka.Config.Authentication.{asks_for_sasl, IsRefused, connections_lem}
use core_shared.Validator.{FieldError, invalid, field_message, validate, join}
use core_shared.Validator.Reported.{Contains, validate-invalid}
use core_shared.Middleware.RequestId.{chosen_id, get_request_id, request_id}
use core_shared.Middleware.Logging.{logging}
use core_shared.Middleware.Recovery.{recovery}
use core_shared.Middleware.Correlation.{Correlated, inner_request, request_id-Correlated}

-- A library that takes no SCRAM credentials, over a configuration that asks for them.
abbrev no_scram : Hash → Text → Text → Result ℕ
no_scram hash user password = err (plain (codes "prohibited character"))

abbrev scram_config : Config.Config
scram_config = record {
  brokers = codes "k:9092" ∷ [];
  username = codes "u";
  password = codes "p";
  protocol = codes "SaslSsl";
  mechanism = codes "ScramSha512";
}

connections_lem_example :
    ((new_dialer no_scram scram_config).sasl_mechanism ≡ (transport no_scram scram_config).sasl)
    × ((new_dialer no_scram scram_config).tls ≡ (transport no_scram scram_config).tls)
    × (((transport no_scram scram_config).sasl ≡ none)
        ↔ ((asks_for_sasl scram_config ≡ false) ⊎ IsRefused no_scram scram_config))
connections_lem_example = connections_lem no_scram scram_config

swallowed :
    (build_sasl_mechanism no_scram scram_config ≡ none) × (asks_for_sasl scram_config ≡ true)
unfolding build_sasl_mechanism text_eq
swallowed = (refl, refl)

plain_chosen :
    build_sasl_mechanism no_scram (record scram_config { mechanism = codes "PLAIN" })
    ≡ some (plain_mechanism (codes "u") (codes "p"))
unfolding build_sasl_mechanism text_eq
plain_chosen = refl

abbrev no_email : FieldError
no_email = record { field = codes "Email"; tag = codes "required" }

abbrev bad_age : FieldError
bad_age = record { field = codes "Age"; tag = codes "min" }

validate-invalid_example :
    (message : Text) × Contains (field_message bad_age) message
    × (error Conn server (validate (invalid (no_email ∷ bad_age ∷ []))) new_conn ≡ (
      record new_conn {
        headers = header_set (codes "Content-Type") (codes "application/json") [];
        status = some 400;
        body = render (error_object (err_bad_request message)) ++ b'\n' ∷ [];
      },
      returned,
    ))
validate-invalid_example = validate-invalid (no_email ∷ []) [] bad_age new_conn refl

two_messages :
    join (field_message no_email ∷ field_message bad_age ∷ [])
    ≡ codes "field 'Email' failed on 'required' validation; field 'Age' failed on 'min' validation"
unfolding join
two_messages = refl

abbrev get_users : Request
get_users = record {
  method = codes "GET";
  path = codes "/users";
  headers = (codes "X-Request-Id", codes "r-1") ∷ [];
  remote_addr = codes "10.0.0.1";
  user_agent = codes "curl";
  context = background;
}

-- A handler that sets a header and panics behind its status.
abbrev half_way : Request → List Call × Exit
half_way r = (
  set_header (codes "Content-Type") (codes "text/plain") ∷ write_header 200 ∷ [],
  panicked (codes "nil map"),
)

request_id-Correlated_example :
    Correlated []
      (chosen_id (codes "fresh") get_users)
      (request_id
        (codes "fresh")
        (logging [] (codes "1ms") (recovery [] (codes "stack") (play half_way)))
        Conn
        server
        get_users
        new_conn).0
    × (get_request_id
          (inner_request
            (codes "fresh")
            (codes "stack")
            (codes "1ms")
            []
            half_way
            get_users).context
        ≡ chosen_id (codes "fresh") get_users)
unfolding canonical text_eq
request_id-Correlated_example =
    request_id-Correlated (codes "fresh") (codes "stack") (codes "1ms") [] half_way get_users
      (refl, tt)
