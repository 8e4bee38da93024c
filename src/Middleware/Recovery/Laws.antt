-- ===== src/Middleware/Recovery/Laws.antt =====
-- What middleware/recovery.go guarantees on the server's connection, for every handler.
use core_shared.Base.{
  ℕ, Text, codes, none, some, Option-cases, inl, inr, [], ◌∷◌, ◌++◌, ◌≡◌, ◌∙◌, ap, arith,
}
use core_shared.Apperror.{nil, as_app}
use core_shared.Json.{render}
use core_shared.Http.{Handler, Conn, server, Request, Exit, returned, panicked}
use core_shared.Http.Ctx.{Logger}
use core_shared.Http.HeaderMap.{header_set}
use core_shared.Response
use core_shared.Http.Server.{Exit-cases}
use core_shared.Response.{internal_server_error}
use core_shared.Response.Envelope.{error_object, error-unsent}
use core_shared.Response.Errors.{error-sent}
use core_shared.Middleware.Recovery.{panic_record, deferred, recovery}

error_internal-unsent :
    (c : Conn)
    → c.status ≡ none
    → Response.error Conn server nil c ≡ (
      record c {
        headers = header_set (codes "Content-Type") (codes "application/json") c.headers;
        status = some 500;
        body = c.body ++ (render (error_object internal_server_error) ++ b'\n' ∷ []);
      },
      returned,
    )
unfolding as_app
error_internal-unsent c unsent =
    error-unsent nil c unsent (omega arith) (omega arith) (omega arith) (omega arith)

error_internal_returns : (c : Conn) → (Response.error Conn server nil c).1 ≡ returned
error_internal_returns c = elim (Option-cases c.status) [
  | inl unsent ↦ rw (error_internal-unsent c unsent)
  | inr (sent, e) ↦ (error-sent nil c sent e).1
]

module _ (log : Logger) (stack : Text) (next : Handler) (r : Request) (c : Conn) where
  -- No panic of a handler passes `Recovery`.
  pub recovery_returns : (recovery log stack next Conn server r c).1 ≡ returned
  unfolding recovery server
  recovery_returns = elim (Exit-cases (next Conn server r c).1) [
    | inl e ↦ rw (e, deferred)
    | inr (m, e) ↦ rw (e, deferred) (error_internal_returns _)
  ]

  -- If the handler panics before its final status is out, the client gets status 500 and the
  -- envelope of the internal error, in which nothing depends on the panic.
  pub recovery_unsent :
      (c' : Conn) (m : Text)
      → next Conn server r c ≡ (c', panicked m)
      → c'.status ≡ none
      → recovery log stack next Conn server r c ≡ (
        record {
          headers = header_set (codes "Content-Type") (codes "application/json") c'.headers;
          status = some 500;
          interim = c'.interim;
          body = c'.body ++ (render (error_object internal_server_error) ++ b'\n' ∷ []);
          logs = c'.logs ++ panic_record log stack r m ∷ [];
        },
        returned,
      )
  unfolding recovery server
  recovery_unsent c' m e unsent =
      ap (deferred Conn server log stack r) e
      ∙ (error_internal-unsent (record c' { logs = c'.logs ++ panic_record log stack r m ∷ [] })
          unsent)

  -- If its final status is out when the handler panics, the client keeps that status.
  pub recovery_sent :
      (c' : Conn) (m : Text) (sent : ℕ)
      → next Conn server r c ≡ (c', panicked m)
      → c'.status ≡ some sent
      → (recovery log stack next Conn server r c).0.status ≡ some sent
  unfolding recovery server
  recovery_sent c' m sent e out =
      ap (λ (p : Conn × Exit). (deferred Conn server log stack r p).0.status) e
      ∙ (error-sent nil (record c' { logs = c'.logs ++ panic_record log stack r m ∷ [] }) sent
          out).0
