-- ===== src/Middleware/Grpc.antt =====
-- middleware/grpc.go: the request id in gRPC metadata, and the logging interceptors.
pub mod Laws
pub mod FullMethod
use core_shared.Base.{
  ℕ, Text, codes, Option, none, some, List, [], ◌∷◌, ◌++◌, ◌==◌, text_eq, is_empty, if◌then◌else◌,
}
use core_shared.Http.{LogRecord, info}
use core_shared.Http.Ctx.{Context, Logger, Metadata, text, middleware_request_id, with_value}
use core_shared.Logger
use core_shared.Middleware.RequestId.{get_request_id, id_or}

abbrev pub request_id_metadata_key : Text
request_id_metadata_key = codes "x-request-id"

-- `md.Get(k)` at a key in lower case, and its first value, the empty text if there is none.
pub first_value : Text → Metadata → Text
first_value k [] = []
first_value k ((j, v) ∷ md) = if text_eq j k then v else first_value k md

unfoldable pub request_id_from_incoming : Context → Text
unfolding first_value
request_id_from_incoming ctx = elim ctx.incoming [
  | none ↦ []
  | some md ↦ first_value request_id_metadata_key md
]

-- `uuid` is the id that `uuid.New` makes.
unfoldable pub inject_request_id : Text → Context → Context × Text
inject_request_id uuid ctx =
    let rid : Text = id_or (request_id_from_incoming ctx) uuid in
    (Logger.with_request_id (with_value ctx middleware_request_id (text rid)) rid, rid)

-- `strings.TrimPrefix(s, "/")`
abbrev pub trim_slash : Text → Text
trim_slash [] = []
trim_slash (c ∷ s) = if c == b'/' then s else c ∷ s

-- The text before the first slash and that behind it.
unfoldable pub cut_slash : Text → Option (Text × Text)
cut_slash [] = none
cut_slash (c ∷ s) =
    if c == b'/'
    then some ([], s)
    else (elim (cut_slash s) [ none ↦ none | some (left, right) ↦ some (c ∷ left, right) ])

-- The service and the method.
unfoldable pub split_full_method : Text → Text × Text
unfolding cut_slash
split_full_method full_method = elim (cut_slash (trim_slash full_method)) [
  | none ↦ ([], trim_slash full_method)
  | some (service, method) ↦ (service, method)
]

unfoldable pub inject_logger : Context → Logger → Text → Text → Context × Logger
inject_logger ctx log rid full_method =
    let (service, method) = split_full_method full_method in
    let req_logger : Logger =
      log
      ++ ((codes "request_id", rid)
          ∷ (codes "rpc.system", codes "grpc")
          ∷ (codes "rpc.service", service)
          ∷ (codes "rpc.method", method)
          ∷ []) in
    (Logger.with_context ctx req_logger, req_logger)

unfoldable pub with_outgoing_request_id : Context → Context
with_outgoing_request_id ctx =
    let rid : Text = get_request_id ctx in
    if is_empty rid
    then ctx
    else record ctx { outgoing = ctx.outgoing ++ (request_id_metadata_key, rid) ∷ [] }

-- What an RPC leaves behind: the header metadata that the server sets, and the logs.
pub record Rpc : Type 0 where
  pub header : Metadata
  pub logs : List LogRecord

abbrev pub completed_rpc : Logger → Text → Text → Text → LogRecord
completed_rpc req_logger message code duration = record {
  level = info;
  message = message;
  attrs = req_logger ++ ((codes "rpc.code", code) ∷ (codes "duration", duration) ∷ []);
}

-- A reply is what the handler returns, with its error; `code_of` is `status.Code(err).String()`.
module _ {Reply : Type 0} (code_of : Reply → Text) (log : Logger) (uuid duration : Text) where
  -- The steps that the unary and the streaming interceptor share; the stream that the handler of
  -- the latter gets has the new context for its `Context`.
  unfoldable pub serve : Text → Text → (Context → Rpc → Rpc × Reply) → Context → Rpc → Rpc × Reply
  serve message full_method handler ctx w =
      let (ctx₁, rid) = inject_request_id uuid ctx in
      let (ctx₂, req_logger) = inject_logger ctx₁ log rid full_method in
      let (w', reply) =
        handler ctx₂ (record w { header = w.header ++ (request_id_metadata_key, rid) ∷ [] }) in
      (
        record w' {
          logs = w'.logs ++ completed_rpc req_logger message (code_of reply) duration ∷ [];
        },
        reply,
      )

  unfoldable pub unary_server_logging :
      Text → (Context → Rpc → Rpc × Reply) → Context → Rpc → Rpc × Reply
  unfolding serve
  unary_server_logging full_method = serve (codes "rpc completed") full_method

  unfoldable pub stream_server_logging :
      Text → (Context → Rpc → Rpc × Reply) → Context → Rpc → Rpc × Reply
  unfolding serve
  stream_server_logging full_method = serve (codes "rpc stream completed") full_method

-- Both client interceptors: the call is made with the new context.
unfoldable pub client_request_id {ℓ} : {R : Type ℓ} → (Context → R) → Context → R
unfolding with_outgoing_request_id
client_request_id invoker ctx = invoker (with_outgoing_request_id ctx)
