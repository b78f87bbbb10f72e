-- ===== src/Publisher.antt =====
-- event_processor/kafka_producer.py: a produce and a flush.
use event_pipeline_extension.Prelude.{ℕ, String, List, ltb, if◌then◌else◌}
use event_pipeline_extension.Prelude.Result.{Result, ok, raise}
use event_pipeline_extension.Errors.{Exception, timeout_error}

-- The Kafka producer: `produce` of a topic, a key and a value, and `flush`, which returns the number
-- of messages still queued.
pub record Producer : Type 1 where
  pub State : Type 0
  pub produce : State → String → List ℕ → List ℕ → Result Exception (Unit {0}) × State
  pub flush : State → Result Exception ℕ × State

-- `encode` is `str.encode("utf-8")`.
module _ (encode : String → List ℕ) (producer : Producer) (topic : String) where
  abbrev pub read_flush :
      Result Exception ℕ × producer.State → Result Exception (Unit {0}) × producer.State
  read_flush (raise ex, p) = (raise ex, p)
  read_flush (ok remaining, p) = (if ltb 0 remaining then raise timeout_error else ok tt, p)

  abbrev pub flush_after :
      Result Exception (Unit {0}) × producer.State → Result Exception (Unit {0}) × producer.State
  flush_after (raise ex, p) = (raise ex, p)
  flush_after (ok _, p) = read_flush (producer.flush p)

  unfoldable pub publish :
      String → List ℕ → producer.State → Result Exception (Unit {0}) × producer.State
  publish key value p = flush_after (producer.produce p topic (encode key) value)
