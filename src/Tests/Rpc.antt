-- ===== src/Tests/Rpc.antt =====
-- middleware/grpc.go and middleware/requestid.go at concrete inputs.
use core_shared.Logger
use core_shared.Base.{text_eq, Text, codes, ◌∷◌, ◌++◌, some, [], ◌≡◌, refl, arith}
use core_shared.Http.Ctx.{Context, Metadata, background, middleware_request_id, text, with_value}
use core_shared.Middleware.RequestId.{get_request_id}
use core_shared.Middleware.Grpc.{
  Rpc, serve, inject_request_id, inject_logger, request_id_from_incoming, with_outgoing_request_id,
  split_full_method, unary_server_logging, stream_server_logging, client_request_id,
}
use core_shared.Middleware.Grpc.Laws.{Served, request_id_propagates}

abbrev caller : Context
caller = with_value background middleware_request_id (text (codes "r-1"))

-- The metadata as gRPC hands it over.
abbrev before : Metadata
before = (codes ":authority", codes "api") ∷ (codes "content-type", codes "application/grpc") ∷ []

abbrev after : Metadata
after = (codes "user-agent", codes "grpc-go") ∷ []

abbrev callee : Context
callee = record background {
  incoming = some (before ++ ((with_outgoing_request_id caller).outgoing ++ after));
}

-- The handler replies with the id that it reads.
abbrev echo : Context → Rpc → Rpc × Text
echo ctx w = (w, get_request_id ctx)

abbrev ping : Text
ping = codes "/svc.Health/Ping"

abbrev empty_rpc : Rpc
empty_rpc = record { header = []; logs = [] }

abbrev ok_code : Text → Text
ok_code reply = codes "OK"

request_id_propagates_example :
    Served ok_code []
      (codes "fresh")
      (codes "1ms")
      []
      (codes "rpc completed")
      ping
      (codes "r-1")
      echo
      callee
      empty_rpc
      (unary_server_logging ok_code [] (codes "fresh") (codes "1ms") ping echo callee empty_rpc)
    × Served ok_code []
        (codes "fresh")
        (codes "1ms")
        []
        (codes "rpc stream completed")
        ping
        (codes "r-1")
        echo
        callee
        empty_rpc
        (stream_server_logging ok_code [] (codes "fresh") (codes "1ms") ping echo callee empty_rpc)
unfolding get_request_id client_request_id
request_id_propagates_example =
    request_id_propagates ok_code [] (codes "fresh") (codes "1ms") caller callee before after []
      ping echo empty_rpc (ground arith) tt (ground arith, (ground arith, tt)) refl

ping_run :
    (unary_server_logging ok_code [] (codes "fresh") (codes "1ms") ping echo callee empty_rpc).1
    ≡ codes "r-1"
unfolding unary_server_logging serve inject_request_id inject_logger get_request_id
    request_id_from_incoming with_outgoing_request_id Logger.with_context Logger.with_request_id
    text_eq
ping_run = refl

split_run : split_full_method (codes "/pkg.Service/Method") ≡ (codes "pkg.Service", codes "Method")
unfolding split_full_method
split_run = refl
