-- ===== src/Camunda/Publishing.antt =====
-- camunda/client.go: `PublishMessage`. What the library answers is an argument.
use core_shared.Base.{ℕ, Text, codes, Option, none, some, List, [], ◌∷◌, ◌++◌}
use core_shared.Apperror.{Error, wrapped}
use core_shared.Returns.{Result, ok, err}
use core_shared.Http.{LogRecord, info}
use core_shared.Http.Ctx.{Logger}

pub record Command : Type 0 where
  pub message_name : Text
  pub correlation_key : Text
  pub time_to_live_minutes : ℕ
  pub variables : Option Text

-- The commands that were sent without an error, and the logs.
pub record Zeebe : Type 0 where
  pub sent : List Command
  pub logs : List LogRecord

-- `accepts` is the error of `VariablesFromString`, `send` that of `Send`.
pub record Gateway : Type 0 where
  pub accepts : Text → Option Error
  pub send : Command → Option Error

abbrev pub message_published : Logger → Command → LogRecord
message_published log cmd = record {
  level = info;
  message = codes "message published";
  attrs =
      log
      ++ (codes "message", cmd.message_name) ∷ (codes "correlation_key", cmd.correlation_key) ∷ [];
}

module _ (g : Gateway) (log : Logger) where
  abbrev after_send : Command → Option Error → Zeebe → Zeebe × Option Error
  after_send cmd (some e) z = (z, some (wrapped (codes "publish message " ++ cmd.message_name) e))
  after_send cmd none z =
      (record { sent = z.sent ++ cmd ∷ []; logs = z.logs ++ message_published log cmd ∷ [] }, none)

  abbrev with_variables : Command → Text → Option Error → Zeebe → Zeebe × Option Error
  with_variables cmd json (some e) z = (z, some (wrapped (codes "set variables") e))
  with_variables cmd json none z =
      let cmd' = record cmd { variables = some json } in after_send cmd' (g.send cmd') z

  abbrev with_marshalled : Command → Option (Result Text) → Zeebe → Zeebe × Option Error
  with_marshalled cmd none z = after_send cmd (g.send cmd) z
  with_marshalled cmd (some (err e)) z = (z, some (wrapped (codes "marshal variables") e))
  with_marshalled cmd (some (ok json)) z = with_variables cmd json (g.accepts json) z

  -- `variables` is what `json.Marshal` gives for them, none for nil.
  unfoldable pub publish_message : Text → Text → Option (Result Text) → Zeebe → Zeebe × Option Error
  publish_message name key variables z =
      with_marshalled
        (record {
          message_name = name;
          correlation_key = key;
          time_to_live_minutes = 5;
          variables = none;
        })
        variables z
