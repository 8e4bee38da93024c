-- ===== src/Kafka/Construction.antt =====
-- kafka/consumer.go and kafka/producer.go: the constructors, with what they hand to the library, and
-- `ParseMessage`. `Close` passes the call to the reader or the writer.
use core_shared.Base.{ℕ, Text, codes, List, [], ◌∷◌, ◌++◌}
use core_shared.Apperror.{wrapped}
use core_shared.Returns.{Result, ok, err}
use core_shared.Http.{LogRecord, info}
use core_shared.Http.Ctx.{Logger}
use core_shared.Kafka.Config.{Config, Hash, Dialer, Transport, new_dialer, transport}

-- `kafka.ReaderConfig`
pub record ReaderConfig (Scram : Type 0) : Type 0 where
  pub brokers : List Text
  pub topic : Text
  pub group_id : Text
  pub dialer : Dialer Scram
  pub min_bytes : ℕ
  pub max_bytes : ℕ

-- `kafka.Writer`, with the balancer of the least bytes and one acknowledgement.
pub record WriterConfig (Scram : Type 0) : Type 0 where
  pub brokers : List Text
  pub topic : Text
  pub batch_timeout_milliseconds : ℕ
  pub required_acks : ℕ
  pub transport : Transport Scram

abbrev created : Text → Logger → LogRecord
created message attrs = record { level = info; message = message; attrs = attrs }

module _ {Scram : Type 0} (scram : Hash → Text → Text → Result Scram) where
  unfoldable pub new_consumer : Config → Text → Text → Logger → ReaderConfig Scram × LogRecord
  unfolding new_dialer
  new_consumer cfg topic group_id log = (
    record {
      brokers = cfg.brokers;
      topic = topic;
      group_id = group_id;
      dialer = new_dialer scram cfg;
      min_bytes = 1;
      max_bytes = 10000000;
    },
    created (codes "kafka consumer created")
        (log ++ (codes "topic", topic) ∷ (codes "group_id", group_id) ∷ []),
  )

  unfoldable pub new_producer : Config → Text → Logger → WriterConfig Scram × LogRecord
  unfolding transport
  new_producer cfg topic log = (
    record {
      brokers = cfg.brokers;
      topic = topic;
      batch_timeout_milliseconds = 10;
      required_acks = 1;
      transport = transport scram cfg;
    },
    created (codes "kafka producer created") (log ++ (codes "topic", topic) ∷ []),
  )

-- `answer` is what `json.Unmarshal` makes of the bytes.
unfoldable pub parse_message : {A : Type 0} → (Text → Result A) → Text → Result A
parse_message {A} unmarshal bytes = wrapped_error (unmarshal bytes)
  where
    wrapped_error : Result A → Result A
    wrapped_error (ok msg) = ok msg
    wrapped_error (err e) = err (wrapped (codes "unmarshal kafka message") e)
