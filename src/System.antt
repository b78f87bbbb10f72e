-- ===== src/System.antt =====
-- The consumer thread, the worker threads and the main thread of event_processor, interleaved: the
-- loop of `KafkaConsumerLoop._run_inner` over the pool, with main.py's wiring of the two callbacks.
-- Kafka delivers any message at any time; the broker accepts or refuses any commit; the work of any
-- message may return or raise.
pub mod Held
pub mod Invariant
pub mod Explained
pub mod Keeps
pub mod Safety
pub mod Closing
pub mod Committed
pub mod Order
mod Tests
use event_pipeline_extension.Prelude.{
  ℕ, ◌<◌, ◌≡◌, ◌⊎◌, Bool, true, false, ◌&&◌, ◌||◌, Option, none, some, List, [], ◌∷◌, ◌++◌, Eq,
  ◌==◌, nat_beq, nat_eq, string_eq, pair_eq, if◌then◌else◌,
}
use event_pipeline_extension.Prelude.Result.{Result, ok, raise}
use event_pipeline_extension.Errors.{Exception}
use event_pipeline_extension.EventId.{Codec}
use event_pipeline_extension.Pool
use event_pipeline_extension.Pool.{WorkerPool, submit, take, finish, close}
use event_pipeline_extension.Store
use event_pipeline_extension.Store.{EventStore}
use event_pipeline_extension.Store.History.{Call, perform}
use event_pipeline_extension.Consumer
use event_pipeline_extension.Consumer.{
  TopicPartition, Message, Completion, Consumer, dispatch, completion_of, drain_one, commit,
}
use event_pipeline_extension.Consumer.Commit.{offsets_of}

-- Where the consumer thread stands: before the subscription, in `poll`, in `pool.submit` of a message, in the loop of
-- `_drain_completions`, at the test of the commit interval, in the drain of the `finally` block, at
-- its commit, or returned.
pub data Phase : Type 0 where
  starting polling draining committing stopping finishing closed : Phase
  submitting : Message → Phase

-- The last three fields record the past: the dispatched messages and the messages whose work has
-- ended, the latest first, and every offset that a commit asked for.
pub record System : Type 0 where
  pub phase : Phase
  pub crashed : Bool
  pub consumer : Consumer
  pub pool : WorkerPool Message
  pub completions : List Completion
  pub store : EventStore
  pub polled : List Message
  pub finished : List (Message × Bool)
  pub requested : List (TopicPartition × ℕ)

abbrev pub init : WorkerPool Message → System
init pool = record {
  phase = starting;
  crashed = false;
  consumer = Consumer.init;
  pool = pool;
  completions = [];
  store = Store.init;
  polled = [];
  finished = [];
  requested = [];
}

-- The loop makes an asynchronous commit, the `finally` block a synchronous one.
unfoldable pub after_commit : Bool → Bool → Phase → System → System
after_commit asynchronous accepted phase s =
    let (c, request) = commit asynchronous accepted s.consumer in
    record s { phase = phase; consumer = c; requested = offsets_of request ++ s.requested }

-- `run` catches what `_run_inner` raised.
unfoldable pub after_run : System → System
after_run s = if s.crashed then record s { consumer = record s.consumer { exit_code = 1 } } else s

module _ (codec : Codec) where
  pub data Step (s : System) : System → Type 0 where
    subscribes : s.phase ≡ starting → Step s (record s { phase = polling })
    -- The construction of the Kafka client or the subscription raises, before the `try` block.
    fails_to_start :
        s.phase ≡ starting → Step s (after_run (record s { phase = closed; crashed = true }))
    dispatches :
        (m : Message) {store : EventStore} {c : Consumer}
        → s.phase ≡ polling
        → dispatch codec m s.store s.consumer ≡ ok (store, c)
        → Step s
            (record s { phase = submitting m; store = store; consumer = c; polled = m ∷ s.polled })
    raises :
        (m : Message) (ex : Exception)
        → s.phase ≡ polling
        → dispatch codec m s.store s.consumer ≡ raise ex
        → Step s (record s { phase = stopping; crashed = true })
    poll_raises : s.phase ≡ polling → Step s (record s { phase = stopping; crashed = true })
    -- `poll` returned no message, or an error.
    idles : s.phase ≡ polling → Step s (record s { phase = draining })
    submits :
        (m : Message) {pool : WorkerPool Message}
        → s.phase ≡ submitting m
        → submit m.key m s.pool ≡ some pool
        → Step s (record s { phase = draining; pool = pool })
    drains :
        (c : Completion) (rest : List Completion)
        → (s.phase ≡ draining) ⊎ (s.phase ≡ stopping)
        → s.completions ≡ c ∷ rest
        → Step s (record s { consumer = drain_one c s.consumer; completions = rest })
    drained : s.phase ≡ draining → s.completions ≡ [] → Step s (record s { phase = committing })
    -- The commit interval has not passed.
    waits : s.phase ≡ committing → Step s (record s { phase = polling })
    commits :
        (accepted : Bool) → s.phase ≡ committing → Step s (after_commit true accepted polling s)
    -- The stop flag is set.
    stops : s.phase ≡ polling → Step s (record s { phase = stopping })
    drained_last : s.phase ≡ stopping → s.completions ≡ [] → Step s (record s { phase = finishing })
    closes_loop :
        (accepted : Bool)
        → s.phase ≡ finishing
        → Step s (after_run (after_commit false accepted closed s))
    takes :
        (i : ℕ) {pool : WorkerPool Message}
        → i < s.pool.num_workers
        → take i s.pool ≡ some pool
        → Step s (record s { pool = pool })
    finishes :
        (i : ℕ) (m : Message) (success : Bool) {pool : WorkerPool Message}
        → i < s.pool.num_workers
        → finish i s.pool ≡ some (m, pool)
        → Step s (record s {
          pool = pool;
          completions = s.completions ++ completion_of m success ∷ [];
          finished = (m, success) ∷ s.finished;
        })
    -- A call on the store, by a worker or by an endpoint.
    stores : (c : Call) → Step s (record s { store = perform c s.store })
    closes :
        (i : ℕ) {pool : WorkerPool Message}
        → i < s.pool.num_workers
        → close i s.pool ≡ some pool
        → Step s (record s { pool = pool })

  -- Every state that the processor can get into, with `n` workers and queues of `size`.
  pub data Reach (n size : ℕ) : System → Type 0 where
    begun :
        {p₀ p : WorkerPool Message}
        → Pool.init n size ≡ ok p₀
        → Pool.start p₀ ≡ ok p
        → Reach n size (init p)
    later : {s t : System} → Reach n size s → Step s t → Reach n size t

-- The offset of the first message of a partition that was dispatched.
unfoldable pub first_offset : TopicPartition → List Message → Option ℕ
first_offset tp [] = none
first_offset tp (m ∷ older) = elim (first_offset tp older) [
  | some first ↦ some first
  | none ↦ if m.tp == tp then some m.offset else none
]

-- The work of some message of the partition with this offset has returned.
unfoldable pub succeeded : TopicPartition → ℕ → List (Message × Bool) → Bool
succeeded tp o [] = false
succeeded tp o ((m, success) ∷ older) =
    (m.tp == tp && nat_beq m.offset o && success) || succeeded tp o older
