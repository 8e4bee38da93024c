-- ===== src/Kafka/Consumer.antt =====
-- kafka/consumer.go: the loop of `Start`. What the reader and the handler answer in one turn of the
-- loop is an argument, so that a list of answers drives it.
pub mod Laws
use core_shared.Base.{Text, codes, Bool, true, false, Option, none, some, List, [], ◌∷◌, ◌++◌}
use core_shared.Apperror.{Error, message_of}
use core_shared.Http.{LogRecord, error}
use core_shared.Http.Ctx.{Logger}

pub record Message : Type 0 where
  pub key : Text
  pub bytes : Text

-- How the handler ends on a message.
pub data Handled : Type 0 where
  succeeded : Handled
  failed : Error → Handled
  panicked : Text → Handled

-- One turn: the fetch fails, and `ctx.Err()` is not nil or is; or a message comes, on which the
-- handler ends so, and `CommitMessages` answers.
pub data Answer : Type 0 where
  fetch_failed : Error → Bool → Answer
  fetched : Message → Handled → Option Error → Answer

-- Where `Start` is: in its loop, returned nil, or left by a panic of the handler.
pub data Status : Type 0 where
  running returned_nil : Status
  crashed : Text → Status

-- `handled` holds the messages given to the handler, `committed` those given to `CommitMessages`.
pub record World : Type 0 where
  pub handled : List Message
  pub committed : List Message
  pub logs : List LogRecord

abbrev pub error_record : Logger → Text → Logger → LogRecord
error_record log message attrs = record { level = error; message = message; attrs = log ++ attrs }

abbrev pub fetch_error : Logger → Error → LogRecord
fetch_error log e =
    error_record log (codes "kafka fetch error") ((codes "error", message_of e) ∷ [])

abbrev pub handler_logs : Logger → Message → Handled → List LogRecord
handler_logs log m (failed e) =
    error_record log (codes "kafka message handler error")
      ((codes "key", m.key) ∷ (codes "error", message_of e) ∷ [])
    ∷ []
handler_logs log m _ = []

abbrev pub commit_logs : Logger → Option Error → List LogRecord
commit_logs log none = []
commit_logs log (some e) =
    error_record log (codes "kafka commit error") ((codes "error", message_of e) ∷ []) ∷ []

-- From the handler's end to the end of the turn.
unfoldable pub after_handler : Logger → Message → Handled → Option Error → World → World × Status
after_handler log m (panicked p) commit w = (record w { handled = w.handled ++ m ∷ [] }, crashed p)
after_handler log m h commit w = (
  record {
    handled = w.handled ++ m ∷ [];
    committed = w.committed ++ m ∷ [];
    logs = (w.logs ++ handler_logs log m h) ++ commit_logs log commit;
  },
  running,
)

-- One turn of the loop.
unfoldable pub turn : Logger → Answer → World → World × Status
unfolding after_handler
turn log (fetch_failed e true) w = (w, returned_nil)
turn log (fetch_failed e false) w = (record w { logs = w.logs ++ fetch_error log e ∷ [] }, running)
turn log (fetched m h commit) w = after_handler log m h commit w

abbrev pub resume : (World → World × Status) → World × Status → World × Status
resume loop (w, running) = loop w
resume loop (w, returned_nil) = (w, returned_nil)
resume loop (w, crashed p) = (w, crashed p)

-- `Start`, as far as the answers go.
unfoldable pub start : Logger → List Answer → World → World × Status
start log [] w = (w, running)
start log (a ∷ answers) w = resume (λ w'. start log answers w') (turn log a w)

abbrev pub fresh : World
fresh = record { handled = []; committed = []; logs = [] }
