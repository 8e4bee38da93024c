-- ===== src/Middleware/RequestId.antt =====
-- middleware/requestid.go. The id that `uuid.New` makes for a request is an argument.
use core_shared.Base.{Text, codes, Option, none, some, is_empty, if◌then◌else◌}
use core_shared.Http.{Handler, Request, with_context}
use core_shared.Http.HeaderMap.{header_get}
use core_shared.Http.Ctx.{Context, middleware_request_id, text, logger, Value, with_value, value}

abbrev pub request_id_header : Text
request_id_header = codes "X-Request-ID"

-- The value, if it is a text.
abbrev pub text_or_empty : Option Value → Text
text_or_empty none = codes ""
text_or_empty (some (text t)) = t
text_or_empty (some (logger l)) = codes ""

unfoldable pub get_request_id : Context → Text
get_request_id ctx = text_or_empty (value ctx middleware_request_id)

abbrev pub id_or : Text → Text → Text
id_or id uuid = if is_empty id then uuid else id

-- The id of the request, and the context that the handler gets.
abbrev pub chosen_id : Text → Request → Text
chosen_id uuid r = id_or (header_get request_id_header r.headers) uuid

unfoldable pub request_context : Text → Request → Context
request_context uuid r = with_value r.context middleware_request_id (text (chosen_id uuid r))

unfoldable pub request_id : Text → Handler → Handler
unfolding request_context
request_id uuid next S w r s =
    next S w (with_context r (request_context uuid r))
      (w.set_header request_id_header (chosen_id uuid r) s)
