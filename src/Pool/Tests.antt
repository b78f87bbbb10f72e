-- ===== src/Pool/Tests.antt =====
-- Runs of a pool, and the theorems at them. An item is its key.
use event_pipeline_extension.Prelude.{
  ℕ, zero, suc, ◌+◌, ◌*◌, ◌≤◌, ◌<◌, ◌≡◌, ◌≢◌, refl, true, false, none, some, List, [], ◌∷◌, arith,
  length, nat_beq, ltb, if◌then◌else◌,
}
use event_pipeline_extension.Prelude.Result.{raise}
use event_pipeline_extension.Pool.{
  Key, WorkerPool, waiting, unstarted, exited, value_error, runtime_error, init, start, submit, put,
  take, finish, close, route, from_bytes, all_exited,
}
use event_pipeline_extension.Pool.Steps.{submits, takes, finishes, closes}
use event_pipeline_extension.Pool.Order.{of_key, for_worker}
use event_pipeline_extension.Pool.Runs.{Reach, begun, later, backpressure}
use event_pipeline_extension.Pool.Termination.{steps, worker_steps_bounded}
use event_pipeline_extension.Pool.Blocked.{took, ended, unmoved, Work, submit_unblocks}
use event_pipeline_extension.Pool.Drain.{Drain, here, next, IsOpen, IsPlain, shutdown_drains}

program : Unit {0}
unfolding init start submit put take finish close route from_bytes all_exited
program = tt

abbrev key_of : Key → Key
key_of k = k

abbrev a : Key
a = some (1 ∷ 44 ∷ [])

-- 0x012c is 300.
route_big_endian : route 7 a ≡ 6
unfolding program
route_big_endian = refl

constructor_checks :
    (init {A = Key} 0 10 ≡ raise value_error) × (init {A = Key} 2 0 ≡ raise value_error)
unfolding program
constructor_checks = (refl, refl)

abbrev pool : WorkerPool Key
pool = record {
  num_workers = 1;
  queue_size = 2;
  queues = λ i. [];
  threads = λ i. if ltb i 1 then waiting else unstarted;
  started = true;
}

started_twice : start pool ≡ raise runtime_error
unfolding program
started_twice = refl

record Run : Type 0 where
  last : WorkerPool Key
  all : List Key
  done : List Key
  reach : Reach key_of 1 2 last all done

fresh : Reach key_of 1 2 pool [] []
unfolding program
fresh = begun refl refl

-- Two items are submitted, and the first is in hand.
busy : Run
unfolding program
busy = record {
  last = _;
  all = a ∷ none ∷ [];
  done = [];
  reach =
      later (later (later fresh (submits a refl)) (submits none refl)) (takes 0 (omega arith) refl);
}

backpressure_example :
    (length (busy.last.queues 0) ≤ 2)
    × (length (for_worker key_of 1 0 busy.all) ≤ length (for_worker key_of 1 0 busy.done) + (2 + 1))
backpressure_example = backpressure key_of busy.reach 0

other : (i : ℕ) → nat_beq 0 (suc i) ≡ false
other i = ground arith

busy-IsPlain : (i : ℕ) → IsPlain (busy.last.queues i)
unfolding busy
busy-IsPlain zero = tt
busy-IsPlain (suc i) = rw (other i) tt

busy_running : (i : ℕ) → busy.last.threads i ≢ exited
unfolding busy
busy_running zero e = cc
busy_running (suc i) e = ground arith

busy-IsOpen : IsOpen busy.last
busy-IsOpen = record { plain = busy-IsPlain; running = busy_running }

record Closing : Type 0 where
  last : WorkerPool Key
  more : List Key
  drain : Drain key_of busy.last last more

-- The worker finishes both items, takes the sentinel and returns.
closing : Closing
unfolding busy
closing = record {
  last = _;
  more = a ∷ none ∷ [];
  drain =
      next
        (next
          (next
            (next (next here (closes 0 (omega arith) refl) refl)
              (finishes 0 a false (omega arith) refl) refl)
            (takes 0 (omega arith) refl) refl)
          (finishes 0 none true (omega arith) refl) refl)
        (takes 0 (omega arith) refl) refl;
}

shutdown_drains_example : of_key key_of a (a ∷ none ∷ []) ≡ of_key key_of a (a ∷ none ∷ [])
unfolding closing
shutdown_drains_example = shutdown_drains key_of busy.reach busy-IsOpen closing.drain refl a

-- With a third item the queue is full, and a further submission blocks.
full : Run
unfolding busy
full = record {
  last = _;
  all = a ∷ none ∷ none ∷ [];
  done = [];
  reach = later busy.reach (submits none refl);
}

full_blocks : submit none none full.last ≡ none
unfolding full
full_blocks = refl

full-IsPlain : (i : ℕ) → IsPlain (full.last.queues i)
unfolding full
full-IsPlain zero = tt
full-IsPlain (suc i) = rw (other i) tt

full_running : (i : ℕ) → full.last.threads i ≢ exited
unfolding full
full_running zero e = cc
full_running (suc i) e = ground arith

full-IsOpen : IsOpen full.last
full-IsOpen = record { plain = full-IsPlain; running = full_running }

submit_unblocks_example :
    (p' p'' : WorkerPool Key) × Work full.last p' × (submit (key_of none) none p' ≡ some p'')
submit_unblocks_example = submit_unblocks key_of none full.reach full-IsOpen

record Rested : Type 0 where
  last : WorkerPool Key
  work : Work busy.last last

-- The worker ends both items.
rested : Rested
unfolding busy
rested = record {
  last = _;
  work =
      ended 0 none (took 0 (ended 0 a unmoved (omega arith) refl) (omega arith) refl) (omega arith)
        refl;
}

worker_steps_bounded_example : steps rested.work ≤ 1 * (2 * 2 + 1)
worker_steps_bounded_example = worker_steps_bounded key_of busy.reach rested.work

rested_stuck : (i : ℕ) → i < 1 → (take i rested.last ≡ none) × (finish i rested.last ≡ none)
unfolding rested
rested_stuck zero lt = (refl, refl)
rested_stuck (suc i) lt = absurd (omega arith)
