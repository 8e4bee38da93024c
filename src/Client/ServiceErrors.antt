-- ===== src/Client/ServiceErrors.antt =====
-- What GetJSON of client/http.go returns to a caller when the handler of the other service has
-- answered with `Error` of response/response.go.
use core_shared.Base.{
  ℕ, zero, suc, ◌≤◌, Text, codes, Bool, true, false, some, none, [], ◌∷◌, ◌++◌, append_assoc,
  length, length-append, take, leb, is_empty, ◌≡◌, ◌∙◌, ap, refl, arith,
}
use core_shared.Json.{decimal, Fields, render, render_fields, obj}
use core_shared.Apperror.{MaybeError, plain}
use core_shared.Returns.{Result, ok, err}
use core_shared.Http.{Conn, new_conn, server}
use core_shared.Response.{error, reported}
use core_shared.Response.Envelope.{error_object, error-unsent}
use core_shared.Client.Url.{resolve}
use core_shared.Client.Requests.{
  HttpClient, Net, Incoming, request, do_request, decode_json, status_error, trim_left, trim_right,
  trim_space, get_json,
}

take_all : (n : ℕ) (s : Text) → length s ≤ n → take n s ≡ s
take_all zero [] h = refl
take_all zero (c ∷ s) h = ground arith
take_all (suc n) [] h = refl
take_all (suc n) (c ∷ s) h = ap (λ t. c ∷ t) (take_all n s (omega arith))

is_empty-brace : (s : Text) → is_empty (s ++ b'}' ∷ []) ≡ false
is_empty-brace [] = refl
is_empty-brace (c ∷ s) = refl

-- A line that ends in a brace loses its line break only.
trim_right-line : (s : Text) → trim_right (s ++ b'}' ∷ b'\n' ∷ []) ≡ s ++ b'}' ∷ []
unfolding trim_right
trim_right-line [] = refl
trim_right-line (c ∷ s) = rw (trim_right-line s, is_empty-brace s)

trim_space-object : (fs : Fields) → trim_space (render (obj fs) ++ b'\n' ∷ []) ≡ render (obj fs)
unfolding trim_left render
trim_space-object fs =
    ap trim_right (ap (λ t. b'{' ∷ t) (append_assoc (render_fields fs) (codes "}") (b'\n' ∷ [])))
    ∙ trim_right-line (b'{' ∷ render_fields fs)

is_bad : (n : ℕ) → 400 ≤ n → leb 400 n ≡ true
is_bad n h = ground arith

line_short : (s : Text) → length s ≤ 4095 → length (s ++ b'\n' ∷ []) ≤ 4096
line_short s h = omega (arith, length-append s (b'\n' ∷ []))

read_object :
    (fs : Fields) (body : Text)
    → length (render (obj fs)) ≤ 4095
    → body ≡ render (obj fs) ++ b'\n' ∷ []
    → trim_space (take 4096 body) ≡ render (obj fs)
read_object fs body short e = rw e (
    ap trim_space
      (take_all 4096 (render (obj fs) ++ b'\n' ∷ []) (line_short (render (obj fs)) short))
    ∙ trim_space-object fs)

status_error-read :
    (resp : Incoming) (n : ℕ) (text : Text)
    → resp.status ≡ n
    → trim_space (take 4096 resp.body) ≡ text
    → status_error resp ≡ plain (codes "http " ++ decimal n ++ codes ": " ++ text)
status_error-read resp n text status read =
    λ i. plain (codes "http " ++ decimal (status i) ++ codes ": " ++ read i)

module _ {A : Type 0} (decode : Text → Result A) (wanted : Bool) where
  get_json-status_error :
      (net : Net) (c : HttpClient) (path : Text) (resp : Incoming)
      → net.new_request (codes "GET") (resolve c.base_url path) ≡ none
      → net.round_trip (request c (codes "GET") path none []) ≡ ok resp
      → 400 ≤ resp.status
      → (get_json decode wanted net c path []).1 ≡ err (status_error resp)
  unfolding get_json do_request decode_json
  get_json-status_error net c path resp made came bad = rw (made, came, is_bad resp.status bad)

  -- Where the other service's handler reports an error by `Error`, with a status from 400 to 999 and an
  -- envelope of at most 4095 bytes, and the network carries the status and the body over, the
  -- error that `GetJSON` returns is the status and the whole envelope, without its line break:
  -- code, class and message of the application error that `As` finds, and nothing that it wraps.
  pub get_json-error :
      (e : MaybeError) (net : Net) (c : HttpClient) (path : Text) (resp : Incoming)
      → net.new_request (codes "GET") (resolve c.base_url path) ≡ none
      → net.round_trip (request c (codes "GET") path none []) ≡ ok resp
      → some resp.status ≡ (error Conn server e new_conn).0.status
      → resp.body ≡ (error Conn server e new_conn).0.body
      → 400 ≤ (reported e).http_status
      → (reported e).http_status ≤ 999
      → length (render (error_object (reported e))) ≤ 4095
      → (get_json decode wanted net c path []).1
        ≡ err (
            plain (
              codes "http "
              ++ decimal (reported e).http_status
              ++ codes ": "
              ++ render (error_object (reported e))))
  get_json-error e net c path resp made came status body lo hi short =
      let sent = error-unsent e new_conn refl (omega arith) hi (omega arith) (omega arith) in
      let status' : resp.status ≡ (reported e).http_status =
        cc (status, ap (λ r. r.0.status) sent) in
      get_json-status_error net c path resp made came (omega (arith, status'))
      ∙ ap err (
          status_error-read resp (reported e).http_status (render (error_object (reported e)))
            status' (read_object _ resp.body short (body ∙ ap (λ r. r.0.body) sent)))
