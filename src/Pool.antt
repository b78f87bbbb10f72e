-- ===== src/Pool.antt =====
-- event_processor/worker.py: the key-partitioned pool of worker threads. Each call that a thread
-- makes on a queue is one function; `none` means that the call blocks.
pub mod Steps
pub mod Order
pub mod Bounds
pub mod Runs
pub mod Drain
pub mod Open
pub mod Running
pub mod Progress
pub mod Blocked
pub mod Measure
pub mod Termination
pub mod Settles
pub mod Closed
mod Tests
use event_pipeline_extension.Prelude.{
  ℕ, zero, suc, ◌+◌, ◌*◌, ◌%◌, Bool, true, false, Option, none, some, List, [], ◌∷◌, ◌++◌, length,
  ltb, nat_beq, if◌then◌else◌,
}
use event_pipeline_extension.Prelude.Result.{Result, ok, raise}

-- A Kafka key: `bytes | None`.
abbrev pub Key : Type 0
Key = Option (List ℕ)

pub data Entry (A : Type 0) : Type 0 where
  item : A → Entry A
  sentinel : Entry A

-- Where a worker thread stands in `_loop`: not started, in `q.get()`, in the work of an item, or
-- returned.
pub data Thread (A : Type 0) : Type 0 where
  unstarted waiting exited : Thread A
  working : A → Thread A

pub data PoolError : Type 0 where
  value_error runtime_error : PoolError

-- `queues` and `threads` are read at indices below `num_workers` only.
pub record WorkerPool (A : Type 0) : Type 0 where
  pub num_workers : ℕ
  pub queue_size : ℕ
  pub queues : ℕ → List (Entry A)
  pub threads : ℕ → Thread A
  pub started : Bool

abbrev pub update {ℓ} : {B : Type ℓ} → (ℕ → B) → ℕ → B → ℕ → B
update f i b j = if nat_beq i j then b else f j

-- `int.from_bytes(key, "big")`
unfoldable pub from_bytes : ℕ → List ℕ → ℕ
from_bytes acc [] = acc
from_bytes acc (b ∷ bs) = from_bytes (acc * 256 + b) bs

unfoldable pub route : ℕ → Key → ℕ
unfolding from_bytes
route num_workers none = 0
route num_workers (some []) = 0
route num_workers (some (b ∷ bs)) = from_bytes 0 (b ∷ bs) % num_workers

module _ {A : Type 0} where
  unfoldable pub init : ℕ → ℕ → Result PoolError (WorkerPool A)
  init num_workers queue_size =
      if ltb num_workers 1
      then raise value_error
      else if ltb queue_size 1
      then raise value_error
      else ok (record {
        num_workers = num_workers;
        queue_size = queue_size;
        queues = λ i. [];
        threads = λ i. unstarted;
        started = false;
      })

  unfoldable pub start : WorkerPool A → Result PoolError (WorkerPool A)
  start p =
      if p.started
      then raise runtime_error
      else ok (record p {
        started = true;
        threads = λ i. if ltb i p.num_workers then waiting else p.threads i;
      })

  -- `q.put(e)` on the bounded queue of a worker.
  unfoldable pub put : ℕ → Entry A → WorkerPool A → Option (WorkerPool A)
  put i e p =
      if ltb (length (p.queues i)) p.queue_size
      then some (record p { queues = update p.queues i (p.queues i ++ e ∷ []) })
      else none

  unfoldable pub submit : Key → A → WorkerPool A → Option (WorkerPool A)
  unfolding put
  submit key work p = put (route p.num_workers key) (item work) p

  -- `q.put(_SENTINEL)` of `shutdown`.
  unfoldable pub close : ℕ → WorkerPool A → Option (WorkerPool A)
  unfolding put
  close i p = put i sentinel p

  -- What a worker does with what `q.get()` returned.
  abbrev pub begin : Entry A → Thread A
  begin (item work) = working work
  begin sentinel = exited

  abbrev pub take_from : ℕ → WorkerPool A → Thread A → List (Entry A) → Option (WorkerPool A)
  take_from i p waiting (e ∷ rest) =
      some (record p { queues = update p.queues i rest; threads = update p.threads i (begin e) })
  take_from i p _ _ = none

  -- `item = q.get()`, and the test on the sentinel.
  unfoldable pub take : ℕ → WorkerPool A → Option (WorkerPool A)
  take i p = take_from i p (p.threads i) (p.queues i)

  abbrev finish_from : ℕ → WorkerPool A → Thread A → Option (A × WorkerPool A)
  finish_from i p (working work) = some (work, record p { threads = update p.threads i waiting })
  finish_from i p _ = none

  -- The work of an item ends, by a return or by an exception that the loop catches, and the worker
  -- goes round the loop. The item is handed to `on_done`.
  unfoldable pub finish : ℕ → WorkerPool A → Option (A × WorkerPool A)
  finish i p = finish_from i p (p.threads i)

  -- `unfinished` of `shutdown`, after the joins: `True` if every thread has returned.
  unfoldable pub all_exited : ℕ → WorkerPool A → Bool
  all_exited zero p = true
  all_exited (suc n) p =
      let rest = all_exited n p in elim (p.threads n) [ exited ↦ rest | _ ↦ false ]
