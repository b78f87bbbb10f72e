-- ===== src/Health.antt =====
-- event_processor/health.py: the probes, on the outcomes of their calls of Kafka and Minio.
use event_pipeline_extension.Prelude.{String, Bool, true, false, Option, none, some}
use event_pipeline_extension.Prelude.Result.{Result, ok, raise}
use event_pipeline_extension.Errors.{Exception}

module _ {Metadata : Type 0} (str : Exception → String) where
  -- `metadata` is what the construction of the client and `list_topics` come to.
  unfoldable pub kafka_reachable : Result Exception (Option Metadata) → Bool × String
  kafka_reachable (ok none) = (false, "no metadata returned")
  kafka_reachable (ok (some metadata)) = (true, "ok")
  kafka_reachable (raise ex) = (false, str ex)

module _ (str : Exception → String) where
  -- `found` is what `bucket_exists` comes to: its answer is not looked at.
  unfoldable pub minio_reachable : Result Exception Bool → Bool × String
  minio_reachable (ok found) = (true, "ok")
  minio_reachable (raise ex) = (false, str ex)
