-- ===== src/Main/Startup.antt =====
-- main.py: `_ensure_bucket`, and `main` up to the start of the consumer thread.
pub mod Laws
use event_pipeline_extension.Prelude.{ℕ, String, ◌≡◌, Bool, true, false}
use event_pipeline_extension.Prelude.Result.{Result, ok, raise, ◌>>=◌}
use event_pipeline_extension.Errors.{Exception}
use event_pipeline_extension.Json.{ℤ, pos, negsuc}
use event_pipeline_extension.Pool
use event_pipeline_extension.Pool.{PoolError}
use event_pipeline_extension.Config.{Settings}
use event_pipeline_extension.Main.{Process, init}

-- The buckets of the object store, and whether a bucket is there.
pub record Buckets : Type 1 where
  pub State : Type 0
  pub bucket_exists : State → String → Result Exception Bool
  pub make_bucket : State → String → Result Exception (Unit {0}) × State
  pub has : State → String → Bool

-- What `main` relies on: an answer is true, and a `make_bucket` that returns has made the bucket.
pub record IsTruthful (buckets : Buckets) : Type 0 where
  pub answers :
      (s : buckets.State) (bucket : String) (found : Bool)
      → buckets.bucket_exists s bucket ≡ ok found
      → buckets.has s bucket ≡ found
  pub made :
      (s t : buckets.State) (bucket : String)
      → buckets.make_bucket s bucket ≡ (ok tt, t)
      → buckets.has t bucket ≡ true

pub data StartError : Type 0 where
  minio_error : Exception → StartError
  pool_error : PoolError → StartError

-- A count that `WorkerPool` compares with 1: a negative one is refused as 0 is.
abbrev pub count : ℤ → ℕ
count (pos n) = n
count (negsuc n) = 0

abbrev pub wrap_pool_error : {A : Type 0} → Result PoolError A → Result StartError A
wrap_pool_error (ok a) = ok a
wrap_pool_error (raise e) = raise (pool_error e)

-- `WorkerPool(...)` and `pool.start()`, and the process at the start of the other threads.
unfoldable pub start_pool : Settings → Result StartError Process
start_pool settings = wrap_pool_error (do
  pool ← Pool.init (count settings.worker_count) (count settings.worker_queue_size)
  started ← Pool.start pool
  ok (init started))

module _ (buckets : Buckets) where
  abbrev pub after_exists :
      buckets.State → String → Result Exception Bool → Result Exception (Unit {0}) × buckets.State
  after_exists s bucket (raise ex) = (raise ex, s)
  after_exists s bucket (ok true) = (ok tt, s)
  after_exists s bucket (ok false) = buckets.make_bucket s bucket

  -- `_ensure_bucket`
  unfoldable pub ensure_bucket :
      buckets.State → String → Result Exception (Unit {0}) × buckets.State
  ensure_bucket s bucket = after_exists s bucket (buckets.bucket_exists s bucket)

  abbrev pub after_bucket :
      Settings
      → Result Exception (Unit {0}) × buckets.State
      → Result StartError Process × buckets.State
  after_bucket settings (raise ex, s) = (raise (minio_error ex), s)
  after_bucket settings (ok _, s) = (start_pool settings, s)

  -- `main` as far as the start of the threads.
  unfoldable pub start_up : Settings → buckets.State → Result StartError Process × buckets.State
  unfolding ensure_bucket
  start_up settings s = after_bucket settings (ensure_bucket s settings.minio_bucket)
