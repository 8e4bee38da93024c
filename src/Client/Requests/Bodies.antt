-- ===== src/Client/Requests/Bodies.antt =====
-- The bodies of the responses, and the outcomes, in client/http.go.
use core_shared.Base.{
  ℕ, ◌≤◌, Text, codes, Bool, true, false, Bool-cases, Option, none, some, inl, inr, List, [], ◌∷◌,
  ◌++◌, leb, if◌then◌else◌, ◌≡◌, ◌↔◌, ◌⊎◌, ap, refl, arith,
}
use core_shared.Apperror.{Error}
use core_shared.Returns.{Result, ok, err, IsErr}
use core_shared.Http.Ctx.{Logger}
use core_shared.Client.Url.{resolve}
use core_shared.Client.Requests.{
  HttpClient, Net, Outgoing, Incoming, Event, sent, received, closed, logged, request, answered,
  issued, do_request, decode_json, decode_after, decoded_as, get_json, post_json,
}

-- Whether a body is open after an event; none if the event needs it to be otherwise.
abbrev pub open_after : Event → Bool → Option Bool
open_after (sent r) is_open = some is_open
open_after (logged r) is_open = some is_open
open_after (received r) is_open = if is_open then none else some true
open_after closed is_open = if is_open then some false else none
open_after e is_open = if is_open then some true else none

abbrev pub then_open : (Bool → Option Bool) → Option Bool → Option Bool
then_open rest none = none
then_open rest (some now) = rest now

-- The same after a trace.
unfoldable pub body_open : Bool → List Event → Option Bool
body_open is_open [] = some is_open
body_open is_open (e ∷ es) = then_open (λ now. body_open now es) (open_after e is_open)

then_open-lem :
    (f g : Bool → Option Bool) (o : Option Bool) (now : Bool) (result : Option Bool)
    → ((b : Bool) → f b ≡ some now → g b ≡ result)
    → then_open f o ≡ some now
    → then_open g o ≡ result
then_open-lem f g none now result step h = ground arith
then_open-lem f g (some b) now result step h = step b h

body_open-append :
    (before now : Bool) (w es : List Event)
    → body_open before w ≡ some now
    → body_open before (w ++ es) ≡ body_open now es
unfolding body_open
body_open-append before now [] es h = ap (then_open (λ b. body_open b es)) h
body_open-append before now (e ∷ w) es h =
    then_open-lem (λ b. body_open b w) (λ b. body_open b (w ++ es)) (open_after e before) now
      (body_open now es) (λ b. body_open-append b now w es) h

abbrev IsPending : List Event × Result Incoming → Type 0
IsPending (w, err e) = body_open false w ≡ some false
IsPending (w, ok resp) = body_open false w ≡ some true

module _ (net : Net) (w : List Event) (h : body_open false w ≡ some false) where
  answered-IsPending :
      (method url : Text) (r : Result Incoming) → IsPending (answered method url w r)
  unfolding body_open
  answered-IsPending method url (err e) = h
  answered-IsPending method url (ok resp) = body_open-append false false w (received resp ∷ []) h

issued-IsPending :
    (net : Net) (req : Outgoing) (w : List Event) (e : Option Error)
    → body_open false w ≡ some false
    → IsPending (issued net req w e)
unfolding body_open
issued-IsPending net req w (some e) h = h
issued-IsPending net req w none h =
    answered-IsPending net (w ++ sent req ∷ []) (body_open-append false false w (sent req ∷ []) h)
      req.method req.url (net.round_trip req)

module _ {A : Type 0} (decode : Text → Result A) (wanted : Bool) where
  decode_json-closed :
      (log : Logger) (resp : Incoming) (w : List Event)
      → body_open false w ≡ some true
      → body_open false (decode_json decode wanted log resp w).0 ≡ some false
  unfolding decode_json body_open
  decode_json-closed log resp w h = elim (Bool-cases (leb 400 resp.status)) [
    | inl bad ↦ rw bad (body_open-append false true w _ h)
    | inr good ↦ rw good (elim (Bool-cases wanted) [
      | inl some_out ↦ rw some_out (body_open-append false true w _ h)
      | inr nil_out ↦ rw nil_out (body_open-append false true w _ h)
    ])
  ]

  decode_after-closed :
      (log : Logger) (r : List Event × Result Incoming)
      → IsPending r
      → body_open false (decode_after decode wanted log r).0 ≡ some false
  decode_after-closed log (w, err e) h = h
  decode_after-closed log (w, ok resp) h = decode_json-closed log resp w h

  get_json-closed :
      (net : Net) (c : HttpClient) (path : Text) (w : List Event)
      → body_open false w ≡ some false
      → body_open false (get_json decode wanted net c path w).0 ≡ some false
  unfolding get_json do_request
  get_json-closed net c path w h =
      let req = request c (codes "GET") path none [] in
      decode_after-closed c.logger (issued net req w (net.new_request (codes "GET") req.url))
        (issued-IsPending net req w (net.new_request (codes "GET") req.url) h)

  post_json-closed :
      (net : Net) (c : HttpClient) (path : Text) (buf : Result Text) (w : List Event)
      → body_open false w ≡ some false
      → body_open false (post_json decode wanted net c path buf w).0 ≡ some false
  unfolding post_json do_request
  post_json-closed net c path (err e) w h = h
  post_json-closed net c path (ok text) w h =
      let req = request c (codes "POST") path (some text) (codes "application/json") in
      decode_after-closed c.logger (issued net req w (net.new_request (codes "POST") req.url))
        (issued-IsPending net req w (net.new_request (codes "POST") req.url) h)

  -- If no body is open, then none is open after `GetJSON`, nor after `PostJSON`, whatever the
  -- network, the JSON decoder and encoder answer; on the way a body is read only while it is
  -- open, and closed once.
  pub bodies_closed :
      (net : Net) (c : HttpClient) (path : Text) (buf : Result Text) (w : List Event)
      → body_open false w ≡ some false
      → (body_open false (get_json decode wanted net c path w).0 ≡ some false)
        × (body_open false (post_json decode wanted net c path buf w).0 ≡ some false)
  bodies_closed net c path buf w h =
      (get_json-closed net c path w h, post_json-closed net c path buf w h)

  decoded_iff :
      (n : ℕ) (r : Result A)
      → leb 400 n ≡ false
      → IsErr (decoded_as decode wanted r) ↔ ((400 ≤ n) ⊎ ((true ≡ true) × IsErr r))
  decoded_iff n (err e) small = (λ _. inr (refl, tt), λ _. tt)
  decoded_iff n (ok a) small =
      (λ x. absurd x, λ y. elim y [ inl big ↦ ground arith | inr (_, x) ↦ x ])

  decode_json-IsErr_iff :
      (log : Logger) (resp : Incoming) (w : List Event)
      → IsErr (decode_json decode wanted log resp w).1
        ↔ ((400 ≤ resp.status) ⊎ ((wanted ≡ true) × IsErr (decode resp.body)))
  unfolding decode_json
  decode_json-IsErr_iff log resp w = elim (Bool-cases (leb 400 resp.status)) [
    | inl bad ↦ rw bad (λ _. inl (ground (arith, bad)), λ _. tt)
    | inr good ↦ rw good (elim (Bool-cases wanted) [
      | inl some_out ↦ rw some_out (decoded_iff resp.status (decode resp.body) good)
      | inr nil_out ↦ rw nil_out (
        λ x. absurd x,
        λ y. elim y [ inl big ↦ ground (arith, good) | inr (t, _) ↦ ground arith ],
      )
    ])
  ]

  -- Where the request can be made and is answered, `GetJSON` returns an error exactly if the
  -- status is 400 or more, or `out` is not nil and the body does not decode: other statuses that
  -- are not 2xx are no errors.
  pub get_json-IsErr_iff :
      (net : Net) (c : HttpClient) (path : Text) (w : List Event) (resp : Incoming)
      → net.new_request (codes "GET") (resolve c.base_url path) ≡ none
      → net.round_trip (request c (codes "GET") path none []) ≡ ok resp
      → IsErr (get_json decode wanted net c path w).1
        ↔ ((400 ≤ resp.status) ⊎ ((wanted ≡ true) × IsErr (decode resp.body)))
  unfolding get_json do_request
  get_json-IsErr_iff net c path w resp made came =
      rw (made, came)
        (decode_json-IsErr_iff c.logger resp
          ((w ++ sent (request c (codes "GET") path none []) ∷ []) ++ received resp ∷ []))
