-- ===== src/Pool/Runs.antt =====
-- Every run of a pool from its construction on.
use event_pipeline_extension.Prelude.{
  ℕ, ◌+◌, ◌≤◌, ◌<◌, ◌≡◌, ap, ◌∙◌, List, [], ◌++◌, arith, length, length-append,
}
use event_pipeline_extension.Prelude.Result.{ok}
use event_pipeline_extension.Pool.{Key, WorkerPool, init, start, route}
use event_pipeline_extension.Pool.Steps.{Event, Step, submissions, completions}
use event_pipeline_extension.Pool.Order.{
  unfinished, InOrder, for_worker, of_key, Step-InOrder, Step-SameSize, InOrder-of_key,
}
use event_pipeline_extension.Pool.Bounds.{IsBounded, Step-IsBounded, length-unfinished-le}

module _ {A : Type 0} (key_of : A → Key) where
  -- A run, with the items submitted so far and those whose work has ended, both in order.
  pub data Reach (n size : ℕ) : WorkerPool A → List A → List A → Type 0 where
    begun : {p₀ p : WorkerPool A} → init n size ≡ ok p₀ → start p₀ ≡ ok p → Reach n size p [] []
    later :
        {p p' : WorkerPool A} {all done : List A} {ev : Event A}
        → Reach n size p all done
        → Step key_of p ev p'
        → Reach n size p' (all ++ submissions ev) (done ++ completions ev)

  pub record IsValid (n size : ℕ) (p : WorkerPool A) (all done : List A) : Type 0 where
    pub workers : p.num_workers ≡ n
    pub bound : p.queue_size ≡ size
    pub positive : (0 < n) × (0 < size)
    pub order : InOrder key_of p all done
    pub bounded : IsBounded p

  begun-IsValid :
      {n size : ℕ} {p₀ p : WorkerPool A}
      → init n size ≡ ok p₀
      → start p₀ ≡ ok p
      → IsValid n size p [] []
  unfolding init start
  begun-IsValid {n} {size} {p₀} {p} a b = record {
    workers = ground arith;
    bound = ground arith;
    positive = ground arith;
    order = λ i. ground arith;
    bounded = λ i. ground arith;
  }

  -- Construction, start and every step of any thread keep the pool valid.
  pub Reach-IsValid :
      {n size : ℕ} {p : WorkerPool A} {all done : List A}
      → Reach n size p all done
      → IsValid n size p all done
  Reach-IsValid (begun a b) = begun-IsValid a b
  Reach-IsValid (later r st) =
      let v = Reach-IsValid r in
      record {
        workers = (Step-SameSize key_of st).0 ∙ v.workers;
        bound = (Step-SameSize key_of st).1 ∙ v.bound;
        positive = v.positive;
        order = Step-InOrder key_of _ _ st v.order;
        bounded = Step-IsBounded key_of st v.bounded;
      }

  -- In every run, for each key: the items of that key whose work has ended, then the one in hand and
  -- those queued at the key's worker, are the items of that key in the order of submission.
  pub per_key_fifo :
      {n size : ℕ} {p : WorkerPool A} {all done : List A}
      → Reach n size p all done
      → (k : Key)
      → of_key key_of k all ≡ of_key key_of k done ++ of_key key_of k (unfinished p (route n k))
  per_key_fifo {n} {p} {all} {done} r k =
      let v = Reach-IsValid r in rw (InOrder-of_key key_of p all done v.order k, v.workers)

  -- Backpressure: in every run no queue holds more entries than its bound, and a worker lags behind
  -- what was submitted to it by the bound and one item at most.
  pub backpressure :
      {n size : ℕ} {p : WorkerPool A} {all done : List A}
      → Reach n size p all done
      → (i : ℕ)
      → (length (p.queues i) ≤ size)
        × (length (for_worker key_of n i all) ≤ length (for_worker key_of n i done) + (size + 1))
  backpressure {n} {p} {all} {done} r i =
      let v = Reach-IsValid r in
      (
        omega (arith, v.bounded i, v.bound),
        rw (← v.workers) (
            omega (
              arith,
              v.bound,
              ap length (v.order i),
              length-unfinished-le p v.bounded i,
              length-append (for_worker key_of p.num_workers i done) (unfinished p i),
            )),
      )
