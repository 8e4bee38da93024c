-- ===== src/Tests/Services.antt =====
-- client/ and kafka/ at concrete inputs.
use core_shared.Base.{Text, codes, true, false, none, some, List, [], ◌∷◌, ◌++◌, ◌≡◌, refl, text_eq}
use core_shared.Apperror.{Error, plain}
use mathlib.Core.List.{Pairwise-pair}
use mathlib.Core.List.Perm
use core_shared.Client.Requests.Order.{Differ, request-perm}
use core_shared.Http.HeaderMap.{put, header_get, header_set, canonical}
use core_shared.Returns.{Result, ok}
use core_shared.Client.Url.{trim_right_slash}
use core_shared.Client.Requests.{
  HttpClient, Net, Incoming, with_http_header, new_http_client, default_transport, get_json,
  post_json, request, set_headers,
}
use core_shared.Client.Requests.Bodies.{body_open, bodies_closed}
use core_shared.Kafka.Consumer.{
  Message, succeeded, failed, Answer, fetch_failed, fetched, returned_nil, start, fresh,
}
use core_shared.Kafka.Consumer.Laws.{all_records, start_returns}

abbrev client : HttpClient
client = record {
  base_url = codes "http://files";
  timeout = 0;
  transport = default_transport;
  logger = [];
  headers = (codes "x-team", codes "core") ∷ [];
}

client_run :
    new_http_client (codes "http://files/") 0 [] (
      with_http_header (codes "x-team") (codes "web")
      ∷ with_http_header (codes "x-team") (codes "core")
      ∷ [])
    ≡ client
unfolding new_http_client trim_right_slash put text_eq
client_run = refl

abbrev not_modified : Incoming
not_modified = record { status = 304; url = codes "http://files/a"; body = codes "7" }

abbrev net : Net
net = record { new_request = λ _ _. none; round_trip = λ _. ok not_modified }

abbrev digits : Text → Result Text
digits t = ok t

bodies_closed_example :
    (body_open false (get_json digits true net client (codes "a") []).0 ≡ some false)
    × (body_open false (post_json digits true net client (codes "a") (ok (codes "1")) []).0
        ≡ some false)
unfolding body_open
bodies_closed_example = bodies_closed digits true net client (codes "a") (ok (codes "1")) [] refl

abbrev order_1 : Message
order_1 = record { key = codes "1"; bytes = codes "{}" }

abbrev order_2 : Message
order_2 = record { key = codes "2"; bytes = codes "{}" }

abbrev eof : Error
eof = plain (codes "EOF")

abbrev turns : List Answer
turns =
    fetched order_1 (failed (plain (codes "no such order"))) none
    ∷ fetch_failed eof false
    ∷ fetched order_2 succeeded (some eof)
    ∷ []

start_returns_example : start [] (turns ++ fetch_failed eof true ∷ []) fresh ≡ (
  record {
    handled = order_1 ∷ order_2 ∷ [];
    committed = order_1 ∷ order_2 ∷ [];
    logs = all_records [] turns;
  },
  returned_nil,
)
start_returns_example = start_returns [] turns [] eof (tt, (refl, (tt, tt)))

abbrev two_headers : HttpClient
two_headers = record client {
  headers = (codes "x-team", codes "core") ∷ (codes "x-trace", codes "1") ∷ [];
}

request-perm_example :
    header_get (codes "X-Team") (request two_headers (codes "GET") (codes "a") none []).headers
    ≡ header_get
        (codes "X-Team")
        (request
          (record two_headers {
            headers = (codes "x-trace", codes "1") ∷ (codes "x-team", codes "core") ∷ [];
          })
          (codes "GET")
          (codes "a")
          none
          []).headers
unfolding canonical text_eq
request-perm_example =
    request-perm two_headers ((codes "x-trace", codes "1") ∷ (codes "x-team", codes "core") ∷ [])
      (codes "GET") (codes "a") none [] (codes "X-Team")
      ((Pairwise-pair {R = Differ} (λ x y. hlevel)).1 refl)
      (Perm.swap (codes "x-trace", codes "1") (codes "x-team", codes "core") [])

-- Two spellings of one key: the value that is sent depends on the order.
same_key :
    (header_get
        (codes "X-Team")
        (set_headers ((codes "x-team", codes "a") ∷ (codes "X-Team", codes "b") ∷ []) [])
      ≡ codes "b")
    × (header_get
          (codes "X-Team")
          (set_headers ((codes "X-Team", codes "b") ∷ (codes "x-team", codes "a") ∷ []) [])
        ≡ codes "a")
unfolding canonical header_get header_set text_eq
same_key = (refl, refl)
