-- ===== src/Response/Errors.antt =====
-- What the error responses of response/response.go depend on, on any writer.
use core_shared.Base.{ℕ, codes, some, Option-cases, inl, inr, ap, [], ◌≡◌, refl, arith}
use core_shared.Apperror.{Error, AppError, MaybeError, nil, because, to_error, as_app, find_app}
use core_shared.Apperror.Chain.{First, Lacks, as_app-eq-some_iff, as_app-eq-none_iff}
use core_shared.Http.{Writer, Conn, server, returned}
use core_shared.Http.Server.{conn_write_header-sent, conn_write-sent}
use core_shared.Http.HeaderMap.{header_set}
use core_shared.Response.{Response, encode, send, error, reported, to_json, error_response}

-- What a client may see of an application error, and nothing else.
abbrev pub redacted : AppError → AppError
redacted a = record a { internal = nil; service = []; feature = []; name = [] }

module _ (S : Type 0) (w : Writer S) where
  error-reported :
      (err err' : MaybeError) (s : S)
      → reported err ≡ reported err'
      → error S w err s ≡ error S w err' s
  unfolding error
  error-reported err err' s h = ap (λ (a : AppError). send S w a.http_status (error_response a) s) h

  -- The response to an error whose outermost application error is `a` is the response to `a`
  -- with no cause, service, feature or name: neither they nor the texts of the errors around `a`
  -- reach the writer.
  pub error-First :
      (e : Error) (a : AppError) (s : S)
      → First a e
      → error S w (because e) s ≡ error S w (because (to_error (redacted a))) s
  unfolding error as_app find_app
  error-First e a s f = rw ((as_app-eq-some_iff e a).1 f, reported)

  -- The response to an error with no application error in it is the one to nil, whatever its text.
  pub error-Lacks : (e : Error) (s : S) → Lacks e → error S w (because e) s ≡ error S w nil s
  error-Lacks e s l =
      error-reported (because e) nil s
        (rw ((as_app-eq-none_iff e).1 l, reported) (unfold as_app in refl))

encode-sent :
    (r : Response) (c : Conn) (sent : ℕ)
    → c.status ≡ some sent
    → (encode Conn server r c).status ≡ some sent
unfolding encode server
encode-sent r c sent e = elim (Option-cases (to_json r)) [
  | inl refused ↦ rw (refused, encode) e
  | inr (fs, encoded) ↦ rw (encoded, encode) (conn_write-sent _ c sent e)
]

send-sent :
    (code : ℕ) (r : Response) (c : Conn) (sent : ℕ)
    → c.status ≡ some sent
    → ((send Conn server code r c).0.status ≡ some sent)
      × ((send Conn server code r c).1 ≡ returned)
unfolding send server
send-sent code r c sent e =
    let start : Conn = record c {
      headers = header_set (codes "Content-Type") (codes "application/json") c.headers;
    } in
    ground (arith, conn_write_header-sent code start sent e, encode-sent r start sent e)

-- Once the final status is out, `Error` returns and leaves that status, whatever the error: on
-- such a connection it only writes to the body.
pub error-sent :
    (err : MaybeError) (c : Conn) (sent : ℕ)
    → c.status ≡ some sent
    → ((error Conn server err c).0.status ≡ some sent) × ((error Conn server err c).1 ≡ returned)
unfolding error
error-sent err = send-sent (reported err).http_status (error_response (reported err))
