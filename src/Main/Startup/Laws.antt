-- ===== src/Main/Startup/Laws.antt =====
-- When the process starts, and in which state.
use mathlib.Core.Path.{subst}
use event_pipeline_extension.Prelude.{
  ℕ, ◌<◌, String, ◌≡◌, refl, Bool, true, false, arith, ap, none, [], if◌then◌else◌, ltb,
}
use event_pipeline_extension.Prelude.Result.{Result, ok, raise, ◌>>=◌}
use event_pipeline_extension.Errors.{Exception}
use event_pipeline_extension.EventId.{Codec}
use event_pipeline_extension.Pool
use event_pipeline_extension.Pool.{PoolError, WorkerPool, waiting, unstarted}
use event_pipeline_extension.Consumer.{Message}
use event_pipeline_extension.Config.{Settings}
use event_pipeline_extension.Main.{Process, serving, init, Reach, begun}
use event_pipeline_extension.System.{starting}
use event_pipeline_extension.Store.{lookup}
use event_pipeline_extension.Dict.{get}
use event_pipeline_extension.Main.Startup.{
  Buckets, IsTruthful, count, start_pool, wrap_pool_error, after_exists, ensure_bucket,
  after_bucket, start_up,
}

-- A process whose threads have not stepped: the main thread is in the server with exit code 0 and the
-- stop flag clear, the consumer thread is before its subscription with nothing read, finished,
-- completed or committed, and each of the `n` workers waits at an empty queue with room for `size`.
pub record IsFresh (n size : ℕ) (p : Process) : Type 0 where
  pub place : p.place ≡ serving
  pub exit_code : p.exit_code ≡ 0
  pub stop : p.stop ≡ false
  pub phase : p.system.phase ≡ starting
  pub crashed : p.system.crashed ≡ false
  pub consumer : p.system.consumer.exit_code ≡ 0
  pub unobserved : p.system.consumer.watermark ≡ []
  pub unnoted : p.system.consumer.last_committed ≡ []
  pub unread : p.system.polled ≡ []
  pub unfinished : p.system.finished ≡ []
  pub uncompleted : p.system.completions ≡ []
  pub unrequested : p.system.requested ≡ []
  pub unknown : (event_id : String) → lookup p.system.store event_id ≡ none
  pub workers : p.system.pool.num_workers ≡ n
  pub room : p.system.pool.queue_size ≡ size
  pub idle : (i : ℕ) → i < n → p.system.pool.threads i ≡ waiting
  pub empty : (i : ℕ) → p.system.pool.queues i ≡ []

-- What a start that succeeds has established.
pub record IsStarted (codec : Codec) (buckets : Buckets) (settings : Settings) (p : Process)
    (s : buckets.State) : Type 0 where
  pub bucket : buckets.has s settings.minio_bucket ≡ true
  pub workers : 0 < count settings.worker_count
  pub room : 0 < count settings.worker_queue_size
  pub fresh : IsFresh (count settings.worker_count) (count settings.worker_queue_size) p
  pub reach : Reach codec (count settings.worker_count) (count settings.worker_queue_size) p

init-positive :
    (n size : ℕ) {pool : WorkerPool Message} → Pool.init n size ≡ ok pool → (0 < n) × (0 < size)
unfolding Pool.init
init-positive n size e = ground arith

init-IsFresh :
    (n size : ℕ) {made started : WorkerPool Message}
    → Pool.init n size ≡ ok made
    → Pool.start made ≡ ok started
    → IsFresh n size (init started)
unfolding Pool.init Pool.start lookup get
init-IsFresh n size {made} {started} a b = record {
  place = refl;
  exit_code = refl;
  stop = refl;
  phase = refl;
  crashed = refl;
  consumer = refl;
  unobserved = refl;
  unnoted = refl;
  unread = refl;
  unfinished = refl;
  uncompleted = refl;
  unrequested = refl;
  unknown = λ event_id. refl;
  workers = ground arith;
  room = ground arith;
  idle = λ i lt. ground arith;
  empty = λ i. ground arith;
}

module _ (codec : Codec) where
  begin-Reach :
      (n size : ℕ) (r : Result PoolError (WorkerPool Message)) {p : Process}
      → Pool.init n size ≡ r
      → wrap_pool_error (do pool ← r; started ← Pool.start pool; ok (init started)) ≡ ok p
      → (0 < n) × (0 < size) × IsFresh n size p × Reach codec n size p
  begin-Reach n size (raise e) made h = cc
  begin-Reach n size (ok pool) {p} made h =
      let positive = init-positive n size made in
      let (fresh, reach) = go (Pool.start pool) refl h in (positive.0, positive.1, fresh, reach)
    where
      go :
          (r : Result PoolError (WorkerPool Message))
          → Pool.start pool ≡ r
          → wrap_pool_error (do started ← r; ok (init started)) ≡ ok p
          → IsFresh n size p × Reach codec n size p
      go (raise e) started h = cc
      go (ok started) begins h =
          let same : init started ≡ p = cc in
          (
            subst (IsFresh n size) same (init-IsFresh n size made begins),
            subst (Reach codec n size) same (begun made begins),
          )

  module _ (buckets : Buckets) where
    ensure_bucket-has :
        IsTruthful buckets
        → (s t : buckets.State) (bucket : String) → ensure_bucket buckets s bucket ≡ (ok tt, t)
        → buckets.has t bucket ≡ true
    unfolding ensure_bucket
    ensure_bucket-has lawful s t bucket e = found (buckets.bucket_exists s bucket) refl e
      where
        found :
            (r : Result Exception Bool)
            → buckets.bucket_exists s bucket ≡ r
            → after_exists buckets s bucket r ≡ (ok tt, t)
            → buckets.has t bucket ≡ true
        found (raise ex) answer h = cc
        found (ok true) answer h =
            let same : s ≡ t = ap (λ r. r.1) h in
            subst (λ u. buckets.has u bucket ≡ true) same (lawful.answers s bucket true answer)
        found (ok false) answer h = lawful.made s t bucket h

    after_bucket-IsStarted :
        IsTruthful buckets
        → (settings : Settings) (s t : buckets.State)
          (r : Result Exception (Unit {0}) × buckets.State) {p : Process}
        → ensure_bucket buckets s settings.minio_bucket ≡ r
        → after_bucket buckets settings r ≡ (ok p, t)
        → IsStarted codec buckets settings p t
    unfolding start_pool
    after_bucket-IsStarted lawful settings s t (raise ex, u) e h = cc
    after_bucket-IsStarted lawful settings s t (ok tt, u) {p} e h =
        let same : u ≡ t = ap (λ r. r.1) h in
        let v =
          begin-Reach (count settings.worker_count) (count settings.worker_queue_size) _ refl
            (ap (λ r. r.0) h) in
        record {
          bucket =
              subst (λ w. buckets.has w settings.minio_bucket ≡ true) same
                (ensure_bucket-has lawful s u settings.minio_bucket e);
          workers = v.0;
          room = v.1;
          fresh = v.2;
          reach = v.3;
        }

    -- If the buckets are truthful, a start that succeeds has a bucket to store into, at least one worker
    -- with room for at least one item, and the process stands at the start of its run, with the counts
    -- of the settings: the main thread in the server with exit code 0 and the stop flag clear, the
    -- consumer thread before its subscription with nothing read or committed, and every worker waiting
    -- at an empty queue.
    pub start_up-IsStarted :
        IsTruthful buckets
        → (settings : Settings) (s t : buckets.State) {p : Process}
        → start_up buckets settings s ≡ (ok p, t)
        → IsStarted codec buckets settings p t
    unfolding start_up
    start_up-IsStarted lawful settings s t e =
        after_bucket-IsStarted lawful settings s t (ensure_bucket buckets s settings.minio_bucket)
          refl e

abbrev started_pool : ℕ → ℕ → WorkerPool Message
started_pool n size = record {
  num_workers = n;
  queue_size = size;
  queues = λ i. [];
  threads = λ i. if ltb i n then waiting else unstarted;
  started = true;
}

start_pool_total :
    (settings : Settings)
    → 0 < count settings.worker_count
    → 0 < count settings.worker_queue_size
    → start_pool settings
      ≡ ok (init (started_pool (count settings.worker_count) (count settings.worker_queue_size)))
unfolding start_pool Pool.init Pool.start
start_pool_total settings workers room = ground arith

-- With the bucket ensured and counts of at least 1 the process starts.
pub start_up_total :
    (buckets : Buckets) (settings : Settings) (s t : buckets.State)
    → ensure_bucket buckets s settings.minio_bucket ≡ (ok tt, t)
    → 0 < count settings.worker_count
    → 0 < count settings.worker_queue_size
    → (p : Process) × (start_up buckets settings s ≡ (ok p, t))
unfolding start_up
start_up_total buckets settings s t e workers room = (
  init (started_pool (count settings.worker_count) (count settings.worker_queue_size)),
  rw e (ap (λ r. (r, t)) (start_pool_total settings workers room)),
)
