-- ===== src/Main.antt =====
-- main.py: the main thread, from the start of the HTTP server to the exit, interleaved with the
-- consumer thread and the workers. A timeout of a join is a choice of a step.
pub mod Threads
pub mod Graceful
pub mod Waiting
pub mod Startup
mod Tests
use event_pipeline_extension.Prelude.{ℕ, ◌+◌, ◌<◌, ◌≡◌, Bool, true, false, Option, none, some}
use event_pipeline_extension.Prelude.Result.{ok}
use event_pipeline_extension.EventId.{Codec}
use event_pipeline_extension.Pool
use event_pipeline_extension.Pool.{WorkerPool, close, all_exited}
use event_pipeline_extension.Consumer.{Message}
use event_pipeline_extension.Shutdown.{
  after_server, after_join, after_consumer, after_pool, after_flush,
}
use event_pipeline_extension.System
use event_pipeline_extension.System.{System, stops, closes, closed}

-- Where the main thread stands: in `server.run`, in the join of the consumer thread, at the read of
-- its exit code, in `pool.shutdown` at the sentinel of a worker or at the joins, at the flush of the
-- producer, or returned.
pub data Place : Type 0 where
  serving joining reading waiting flushing ended : Place
  closing : ℕ → Place

pub record Process : Type 0 where
  pub place : Place
  pub exit_code : ℕ
  pub stop : Bool
  pub system : System

abbrev pub init : WorkerPool Message → Process
init pool = record { place = serving; exit_code = 0; stop = false; system = System.init pool }

module _ (codec : Codec) where
  -- The steps that other threads may make: the consumer thread leaves its loop by the stop flag only
  -- when it is set, and only the main thread puts sentinels.
  abbrev pub IsAllowed : Bool → {s t : System} → System.Step codec s t → Type 0
  IsAllowed stop (stops p) = stop ≡ true
  IsAllowed stop (closes i lt e) = ⊥
  IsAllowed stop _ = Unit

  pub data Step (p : Process) : Process → Type 0 where
    threads :
        {t : System} (st : System.Step codec p.system t)
        → IsAllowed p.stop st
        → Step p (record p { system = t })
    -- The server returned or raised; `consumer.stop()` sets the flag.
    served :
        (crashed : Bool)
        → p.place ≡ serving
        → Step p (record p { place = joining; exit_code = after_server crashed; stop = true })
    -- A thread that is not alive has returned.
    joined :
        (alive : Bool)
        → p.place ≡ joining
        → (alive ≡ false → p.system.phase ≡ closed)
        → Step p (record p { place = reading; exit_code = after_join alive p.exit_code })
    reads :
        p.place ≡ reading
        → Step p (record p {
          place = closing 0;
          exit_code = after_consumer p.system.consumer.exit_code p.exit_code;
        })
    puts :
        (i : ℕ) {pool : WorkerPool Message}
        → p.place ≡ closing i
        → i < p.system.pool.num_workers
        → close i p.system.pool ≡ some pool
        → Step p (record p { place = closing (i + 1); system = record p.system { pool = pool } })
    all_put : p.place ≡ closing p.system.pool.num_workers → Step p (record p { place = waiting })
    -- `pool.shutdown` returns `True` only if every worker has returned.
    shut :
        (stopped : Bool)
        → p.place ≡ waiting
        → (stopped ≡ true → all_exited p.system.pool.num_workers p.system.pool ≡ true)
        → Step p (record p { place = flushing; exit_code = after_pool stopped p.exit_code })
    -- The outcome of the flush; then the client is closed, and `main` returns.
    flushes :
        (remaining : Option ℕ)
        → p.place ≡ flushing
        → Step p (record p { place = ended; exit_code = after_flush remaining p.exit_code })

  -- Every state of the process, with `n` workers and queues of `size`.
  pub data Reach (n size : ℕ) : Process → Type 0 where
    begun :
        {p₀ pool : WorkerPool Message}
        → Pool.init n size ≡ ok p₀
        → Pool.start p₀ ≡ ok pool
        → Reach n size (init pool)
    later : {p q : Process} → Reach n size p → Step p q → Reach n size q
