-- ===== src/Client/Requests.antt =====
-- client/http.go: the client, its requests, and what becomes of the response. The network is a
-- record of what `http.NewRequestWithContext` and `http.Client.Do` answer, and the calls on it and
-- on the response's body are noted in a trace.
pub mod Bodies
pub mod Order
use core_shared.Base.{
  ℕ, Text, codes, Bool, true, false, Option, none, some, List, [], ◌∷◌, ◌++◌, ◌==◌, leb, ◌&&◌, ◌||◌,
  is_empty, take, if◌then◌else◌,
}
use core_shared.Apperror.{Error, plain, wrapped}
use core_shared.Returns.{Result, ok, err}
use core_shared.Json.{decimal}
use core_shared.Http.{LogRecord, warn}
use core_shared.Http.Ctx.{Logger}
use core_shared.Http.HeaderMap.{Headers, put, header_set}
use core_shared.Client.Url.{trim_right_slash, resolve}

-- The round tripper that is wrapped by otelhttp: the default one, or one of the caller's.
pub data RoundTripper : Type 0 where
  default_transport : RoundTripper
  custom : ℕ → RoundTripper

pub record HttpClient : Type 0 where
  pub base_url : Text
  pub timeout : ℕ
  pub transport : RoundTripper
  pub logger : Logger
  pub headers : List (Text × Text)

pub data HttpOption : Type 0 where
  with_http_header : Text → Text → HttpOption
  with_http_transport : RoundTripper → HttpOption

abbrev pub apply_option : HttpOption → HttpClient → HttpClient
apply_option (with_http_header k v) c = record c { headers = put k v c.headers }
apply_option (with_http_transport rt) c = record c { transport = rt }

abbrev apply_options : List HttpOption → HttpClient → HttpClient
apply_options [] c = c
apply_options (o ∷ opts) c = apply_options opts (apply_option o c)

unfoldable pub new_http_client : Text → ℕ → Logger → List HttpOption → HttpClient
new_http_client base_url timeout log opts = apply_options opts (record {
  base_url = trim_right_slash base_url;
  timeout = timeout;
  transport = default_transport;
  logger = log;
  headers = [];
})

pub record Outgoing : Type 0 where
  pub method : Text
  pub url : Text
  pub headers : Headers
  pub body : Option Text

pub record Incoming : Type 0 where
  pub status : ℕ
  pub url : Text
  pub body : Text

pub record Net : Type 0 where
  pub new_request : Text → Text → Option Error
  pub round_trip : Outgoing → Result Incoming

-- What happens, in order: a request goes out, a response comes whose body is open, at most so
-- many bytes of the body are read, or all, or a JSON value; the body is closed; a log is written.
pub data Event : Type 0 where
  sent : Outgoing → Event
  received : Incoming → Event
  read_limited : ℕ → Event
  discarded decoded closed : Event
  logged : LogRecord → Event

abbrev pub set_headers : List (Text × Text) → Headers → Headers
set_headers [] h = h
set_headers ((k, v) ∷ rest) h = set_headers rest (header_set k v h)

abbrev pub content_headers : Text → Headers
content_headers content_type =
    if is_empty content_type then [] else header_set (codes "Content-Type") content_type []

abbrev pub request : HttpClient → Text → Text → Option Text → Text → Outgoing
request c method path body content_type = record {
  method = method;
  url = resolve c.base_url path;
  headers = set_headers c.headers (content_headers content_type);
  body = body;
}

abbrev pub answered : Text → Text → List Event → Result Incoming → List Event × Result Incoming
answered method url w (err e) = (w, err (wrapped (method ++ b' ' ∷ url) e))
answered method url w (ok resp) = (w ++ received resp ∷ [], ok resp)

abbrev issued : Net → Outgoing → List Event → Option Error → List Event × Result Incoming
issued net req w (some e) = (w, err (wrapped (codes "new request") e))
issued net req w none = answered req.method req.url (w ++ sent req ∷ []) (net.round_trip req)

-- `Do`
unfoldable pub do_request :
    Net → HttpClient → Text → Text → Option Text → Text → List Event → List Event × Result Incoming
do_request net c method path body content_type w =
    let req = request c method path body content_type in
    issued net req w (net.new_request method req.url)

-- `strings.TrimSpace`, of the white space in ASCII
abbrev is_space : ℕ → Bool
is_space c = leb 9 c && leb c 13 || c == 32

unfoldable pub trim_left : Text → Text
trim_left [] = []
trim_left (c ∷ s) = if is_space c then trim_left s else c ∷ s

unfoldable pub trim_right : Text → Text
trim_right [] = []
trim_right (c ∷ s) = let rest = trim_right s in if is_empty rest && is_space c then [] else c ∷ rest

abbrev pub trim_space : Text → Text
trim_space s = trim_right (trim_left s)

abbrev pub non_2xx_record : Logger → Incoming → LogRecord
non_2xx_record log resp = record {
  level = warn;
  message = codes "http non-2xx response";
  attrs =
      log
      ++ ((codes "url", resp.url)
          ∷ (codes "status", decimal resp.status)
          ∷ (codes "body", take 4096 resp.body)
          ∷ []);
}

abbrev pub status_error : Incoming → Error
status_error resp =
    plain (codes "http " ++ decimal resp.status ++ codes ": " ++ trim_space (take 4096 resp.body))

-- `decode` is what decoding JSON into `out` gives; `wanted` says that `out` is not nil.
module _ {A : Type 0} (decode : Text → Result A) (wanted : Bool) where
  abbrev pub decoded_as : Result A → Result (Option A)
  decoded_as (ok a) = ok (some a)
  decoded_as (err e) = err (wrapped (codes "decode response") e)

  unfoldable pub decode_json : Logger → Incoming → List Event → List Event × Result (Option A)
  decode_json log resp w =
      if leb 400 resp.status
      then (
        w ++ read_limited 4096 ∷ logged (non_2xx_record log resp) ∷ closed ∷ [],
        err (status_error resp),
      )
      else if wanted
      then (w ++ decoded ∷ closed ∷ [], decoded_as (decode resp.body))
      else (w ++ discarded ∷ closed ∷ [], ok none)

  abbrev pub decode_after : Logger → List Event × Result Incoming → List Event × Result (Option A)
  decode_after log (w, err e) = (w, err e)
  decode_after log (w, ok resp) = decode_json log resp w

  unfoldable pub get_json : Net → HttpClient → Text → List Event → List Event × Result (Option A)
  unfolding do_request decode_json
  get_json net c path w = decode_after c.logger (do_request net c (codes "GET") path none [] w)

  -- `body` is what `json.Marshal` gives.
  unfoldable pub post_json :
      Net → HttpClient → Text → Result Text → List Event → List Event × Result (Option A)
  unfolding do_request decode_json
  post_json net c path (err e) w = (w, err (wrapped (codes "marshal body") e))
  post_json net c path (ok buf) w =
      decode_after c.logger
        (do_request net c (codes "POST") path (some buf) (codes "application/json") w)
