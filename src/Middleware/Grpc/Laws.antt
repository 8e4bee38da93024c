-- ===== src/Middleware/Grpc/Laws.antt =====
-- How the request id travels through middleware/requestid.go and middleware/grpc.go.
use core_shared.Base.{
  ℕ, Text, codes, some, [], ◌∷◌, ◌++◌, text_eq_iff, text_eq_refl, is_empty, All, ◌≡◌, ◌≢◌, sym, ◌∙◌,
  false, refl, arith,
}
use mathlib.Core.Path.{subst}
use core_shared.Http.{Request}
use core_shared.Http.Ctx.{Context, Logger, Metadata}
use core_shared.Logger
use core_shared.Middleware.RequestId.{get_request_id, id_or, chosen_id, request_context}
use core_shared.Middleware.Grpc.{
  Rpc, completed_rpc, serve, unary_server_logging, stream_server_logging, client_request_id,
  request_id_metadata_key, first_value, request_id_from_incoming, inject_request_id, inject_logger,
  split_full_method, with_outgoing_request_id,
}

-- No entry of the metadata has the key.
abbrev pub LacksKey : Text → Metadata → Type 0
LacksKey k = All (λ p. p.0 ≢ k)

first_value-append :
    (k v : Text) (md : Metadata) → LacksKey k md → first_value k (md ++ (k, v) ∷ []) ≡ v
unfolding first_value
first_value-append k v [] h = rw (text_eq_refl k)
first_value-append k v ((j, w) ∷ md) (p, h) =
    ground (arith, text_eq_iff j k, first_value-append k v md h)

id_or-ne : (id uuid : Text) → id ≢ [] → id_or id uuid ≡ id
id_or-ne [] uuid h = absurd (h refl)
id_or-ne (c ∷ id) uuid h = refl

is_empty-ne : (t : Text) → t ≢ [] → is_empty t ≡ false
is_empty-ne [] h = absurd (h refl)
is_empty-ne (c ∷ t) h = refl

outgoing_id :
    (ctx : Context)
    → get_request_id ctx ≢ []
    → LacksKey request_id_metadata_key ctx.outgoing
    → first_value request_id_metadata_key (with_outgoing_request_id ctx).outgoing
      ≡ get_request_id ctx
unfolding with_outgoing_request_id
outgoing_id ctx ne lacks =
    rw (is_empty-ne (get_request_id ctx) ne)
      (first_value-append request_id_metadata_key (get_request_id ctx) ctx.outgoing lacks)

injected-incoming :
    (uuid : Text) (ctx : Context) (md : Metadata)
    → ctx.incoming ≡ some md
    → first_value request_id_metadata_key md ≢ []
    → (inject_request_id uuid ctx).1 ≡ first_value request_id_metadata_key md
unfolding inject_request_id request_id_from_incoming
injected-incoming uuid ctx md e ne = rw e (id_or-ne _ uuid ne)

-- Behind the gRPC interceptors a handler that asks for the logger of its context gets the logger
-- of the RPC (request id, system, service and method), the trace's ids, and the request id again.
pub from_context-injected :
    (default log : Logger) (uuid full : Text) (ctx : Context) (c : ℕ) (rid : Text)
    → (inject_request_id uuid ctx).1 ≡ c ∷ rid
    → Logger.from_context default
        (inject_logger (inject_request_id uuid ctx).0 log (inject_request_id uuid ctx).1 full).0
      ≡ ((log
            ++ ((codes "request_id", c ∷ rid)
                ∷ (codes "rpc.system", codes "grpc")
                ∷ (codes "rpc.service", (split_full_method full).0)
                ∷ (codes "rpc.method", (split_full_method full).1)
                ∷ []))
          ++ Logger.span_attrs ctx.span)
        ++ (codes "request.id", c ∷ rid) ∷ []
unfolding Logger.from_context Logger.with_context Logger.with_request_id inject_request_id
    inject_logger
from_context-injected default log uuid full ctx c rid e = rw e

abbrev pub rpc_attrs : Text → Text → Logger
rpc_attrs rid full =
    (codes "request_id", rid)
    ∷ (codes "rpc.system", codes "grpc")
    ∷ (codes "rpc.service", (split_full_method full).0)
    ∷ (codes "rpc.method", (split_full_method full).1)
    ∷ []

from_context-of_id :
    (default log : Logger) (uuid full : Text) (ctx : Context) (rid : Text)
    → (inject_request_id uuid ctx).1 ≡ rid
    → rid ≢ []
    → Logger.from_context default
        (inject_logger (inject_request_id uuid ctx).0 log (inject_request_id uuid ctx).1 full).0
      ≡ ((log ++ rpc_attrs rid full) ++ Logger.span_attrs ctx.span)
        ++ (codes "request.id", rid) ∷ []
from_context-of_id default log uuid full ctx [] e ne = absurd (ne refl)
from_context-of_id default log uuid full ctx (c ∷ rid) e ne =
    from_context-injected default log uuid full ctx c rid e

first_value-behind :
    (k : Text) (before md : Metadata)
    → LacksKey k before
    → first_value k (before ++ md) ≡ first_value k md
unfolding first_value
first_value-behind k [] md h = refl
first_value-behind k ((j, w) ∷ before) md (p, h) =
    ground (arith, text_eq_iff j k, first_value-behind k before md h)

first_value-before :
    (k : Text) (md after : Metadata)
    → first_value k md ≢ []
    → first_value k (md ++ after) ≡ first_value k md
unfolding first_value
first_value-before k [] after h = absurd (h refl)
first_value-before k ((j, w) ∷ md) after h = ground (arith, first_value-before k md after)

module _ {Reply : Type 0} (code_of : Reply → Text) (log : Logger) (uuid duration : Text) where
  -- `handler` has served the RPC in a context from which it reads the id and a logger that
  -- carries it, with the id among the header metadata; `p` is what it left behind and its
  -- reply, with one record more, under the id.
  pub record Served (default : Logger) (message full rid : Text)
      (handler : Context → Rpc → Rpc × Reply) (callee : Context) (w : Rpc) (p : Rpc × Reply)
      : Type 0 where
    pub ctx : Context
    pub in_context : get_request_id ctx ≡ rid
    pub in_logger :
        Logger.from_context default ctx
        ≡ ((log ++ rpc_attrs rid full) ++ Logger.span_attrs callee.span)
          ++ (codes "request.id", rid) ∷ []
    pub left : Rpc
    pub reply : Reply
    pub handled :
        handler ctx (record w { header = w.header ++ (request_id_metadata_key, rid) ∷ [] })
        ≡ (left, reply)
    pub completed : p ≡ (
      record left {
        logs =
            left.logs
            ++ completed_rpc (log ++ rpc_attrs rid full) message (code_of reply) duration ∷ [];
      },
      reply,
    )

  serve-Served :
      (default : Logger) (message full rid : Text) (handler : Context → Rpc → Rpc × Reply)
      (callee : Context) (w : Rpc)
      → (inject_request_id uuid callee).1 ≡ rid
      → rid ≢ []
      → Served default message full rid handler callee w
          (serve code_of log uuid duration message full handler callee w)
  unfolding serve inject_logger inject_request_id get_request_id Logger.with_context
      Logger.with_request_id
  serve-Served default message full rid handler callee w e ne =
      subst
        (λ r.
          Served default message full r handler callee w
            (serve code_of log uuid duration message full handler callee w))
        e
        (let ctx =
            (inject_logger (inject_request_id uuid callee).0 log (inject_request_id uuid callee).1
              full).0 in
          let r = handler ctx (record w {
            header = w.header ++ (request_id_metadata_key, (inject_request_id uuid callee).1) ∷ [];
          }) in
          record {
            ctx = ctx;
            in_context = refl;
            in_logger =
                from_context-of_id default log uuid full callee (inject_request_id uuid callee).1
                  refl (λ h. ne (sym e ∙ h));
            left = r.0;
            reply = r.1;
            handled = refl;
            completed = refl;
          })

  -- The request id of a caller whose context has one reaches the server that it calls, whatever id
  -- the server would make, if the caller's outgoing metadata had no id before and gRPC hands the
  -- metadata over with other keys before it and whatever behind: both server interceptors run the
  -- handler once, in a context from which it reads that id and a logger that carries it with the
  -- RPC's attributes and the trace's ids, after they have set it in the header; and they log the
  -- completed RPC under that id and hand on the handler's reply.
  pub request_id_propagates :
      (caller callee : Context) (before after : Metadata) (default : Logger) (full : Text)
      (handler : Context → Rpc → Rpc × Reply) (w : Rpc)
      → get_request_id caller ≢ []
      → LacksKey request_id_metadata_key caller.outgoing
      → LacksKey request_id_metadata_key before
      → callee.incoming ≡ some (before ++ (client_request_id (λ ctx. ctx.outgoing) caller ++ after))
      → Served default
          (codes "rpc completed")
          full
          (get_request_id caller)
          handler
          callee
          w
          (unary_server_logging code_of log uuid duration full handler callee w)
        × Served default
            (codes "rpc stream completed")
            full
            (get_request_id caller)
            handler
            callee
            w
            (stream_server_logging code_of log uuid duration full handler callee w)
  unfolding unary_server_logging stream_server_logging client_request_id
  request_id_propagates caller callee before after default full handler w ne lacks other arrives =
      let sent = outgoing_id caller ne lacks in
      let there =
        first_value-behind request_id_metadata_key before _ other
        ∙ first_value-before request_id_metadata_key _ after (λ h. ne (sym sent ∙ h))
        ∙ sent in
      let reached : callee.incoming
          ≡ some (before ++ ((with_outgoing_request_id caller).outgoing ++ after)) =
        arrives in
      let taken = injected-incoming uuid callee _ reached (λ h. ne (sym there ∙ h)) ∙ there in
      (
        serve-Served default _ full (get_request_id caller) handler callee w taken ne,
        serve-Served default _ full (get_request_id caller) handler callee w taken ne,
      )

-- `RequestID` gives the handler a context from which `GetRequestID` reads the id in the header,
-- or the one that was made if the header is absent or empty; `logger.FromContext` gives the same
-- logger as before, with no request id added.
pub request_context_lem :
    (uuid : Text) (r : Request) (default : Logger)
    → (get_request_id (request_context uuid r) ≡ chosen_id uuid r)
      × (Logger.from_context default (request_context uuid r)
          ≡ Logger.from_context default r.context)
unfolding request_context get_request_id Logger.from_context
request_context_lem uuid r default = (refl, refl)
