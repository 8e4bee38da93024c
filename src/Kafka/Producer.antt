-- ===== src/Kafka/Producer.antt =====
-- kafka/producer.go: `Publish`. What `json.Marshal` and the writer answer is an argument.
use core_shared.Base.{Text, codes, Option, none, some, List, [], ◌∷◌, ◌++◌, length}
use core_shared.Apperror.{Error, wrapped}
use core_shared.Returns.{Result, ok, err}
use core_shared.Json.{decimal}
use core_shared.Http.{LogRecord, debug}
use core_shared.Http.Ctx.{Logger}
use core_shared.Kafka.Consumer.{Message}

-- The messages that have come into the topic, and the logs.
pub record Topic : Type 0 where
  pub written : List Message
  pub logs : List LogRecord

abbrev pub published : Logger → Message → LogRecord
published log m = record {
  level = debug;
  message = codes "kafka message published";
  attrs = log ++ (codes "key", m.key) ∷ (codes "size", decimal (length m.bytes)) ∷ [];
}

-- `write` is what a call of `WriteMessages` puts into the topic, and its error: a writer that reports
-- an error may have written the message all the same, and one that retries may write it twice.
module _ (write : Message → List Message × Option Error) (log : Logger) where
  abbrev pub after_write : Message → List Message × Option Error → Topic → Topic × Option Error
  after_write m (taken, some e) t =
      (record t { written = t.written ++ taken }, some (wrapped (codes "publish to kafka") e))
  after_write m (taken, none) t =
      (record { written = t.written ++ taken; logs = t.logs ++ published log m ∷ [] }, none)

  abbrev pub after_marshal : Text → Result Text → Topic → Topic × Option Error
  after_marshal key (err e) t = (t, some (wrapped (codes "marshal kafka message") e))
  after_marshal key (ok bytes) t =
      let m : Message = record { key = key; bytes = bytes } in after_write m (write m) t

  unfoldable pub publish {ℓ} :
      {A : Type ℓ} → (A → Result Text) → Text → A → Topic → Topic × Option Error
  publish marshal key a t = after_marshal key (marshal a) t
