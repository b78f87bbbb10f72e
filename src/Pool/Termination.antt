-- ===== src/Pool/Termination.antt =====
-- Left alone, the workers come to rest, and then nothing is unfinished.
use mathlib.Core.Path.{subst}
use event_pipeline_extension.Prelude.{
  ℕ, ◌+◌, ◌*◌, ◌<◌, ◌≤◌, ◌≡◌, ◌≢◌, refl, ap, ◌∙◌, none, true, some, List, [], ◌∷◌, arith,
}
use event_pipeline_extension.Pool.{
  Key, Entry, Thread, waiting, working, unstarted, exited, WorkerPool, take, finish,
}
use event_pipeline_extension.Pool.Steps.{takes, finishes}
use event_pipeline_extension.Pool.Order.{unfinished}
use event_pipeline_extension.Pool.Runs.{Reach, Reach-IsValid}
use event_pipeline_extension.Pool.Drain.{IsOpen, finish-eq}
use event_pipeline_extension.Pool.Open.{take-IsOpen, finish-IsOpen}
use event_pipeline_extension.Pool.Running.{
  took_head, taken_cases, IsRunning, Reach-IsRunning, Step-IsRunning,
}
use event_pipeline_extension.Pool.Blocked.{Work, unmoved, took, ended}
use event_pipeline_extension.Pool.Measure.{total, take-ahead, finish-ahead, total-le}

module _ {A : Type 0} where
  -- None of the workers below `n` can step.
  abbrev pub IsAtRest : ℕ → WorkerPool A → Type 0
  IsAtRest n p = (i : ℕ) → i < n → (take i p ≡ none) × (finish i p ≡ none)

  -- The steps of a run of the workers.
  pub steps : {p q : WorkerPool A} → Work p q → ℕ
  steps unmoved = 0
  steps (took i w lt e) = steps w + 1
  steps (ended i a w lt e) = steps w + 1

  took_eq :
      (i : ℕ) (p : WorkerPool A) {q : WorkerPool A} (h : take i p ≡ some q)
      → let cases = taken_cases i p h in q ≡ took_head i cases.0 cases.1 p
  took_eq i p h = (taken_cases i p h).4

  pub Work-workers : {p q : WorkerPool A} → Work p q → q.num_workers ≡ p.num_workers
  Work-workers unmoved = refl
  Work-workers (took i {p'} w lt e) = ap (λ x. x.num_workers) (took_eq i p' e) ∙ Work-workers w
  Work-workers (ended i a {p'} w lt e) =
      ap (λ x. x.num_workers) (finish-eq i a p' e) ∙ Work-workers w

  Work-IsOpen : {p q : WorkerPool A} → Work p q → IsOpen p → IsOpen q
  Work-IsOpen unmoved o = o
  Work-IsOpen (took i {p'} w lt e) o = take-IsOpen i p' e (Work-IsOpen w o)
  Work-IsOpen (ended i a {p'} w lt e) o = finish-IsOpen i a p' e (Work-IsOpen w o)

  steps-total :
      {p q : WorkerPool A} (w : Work p q) → steps w + total p.num_workers q ≤ total p.num_workers p
  unfolding steps
  steps-total unmoved = omega arith
  steps-total {p} (took i {p'} w lt e) =
      omega (arith, steps-total w, take-ahead p.num_workers i p' (omega (arith, Work-workers w)) e)
  steps-total {p} (ended i a {p'} w lt e) =
      omega
        (arith, steps-total w, finish-ahead p.num_workers i a p' (omega (arith, Work-workers w)) e)

module _ {A : Type 0} (key_of : A → Key) where
  -- The workers come to rest: from every state that a pool can get into, a run of the workers alone
  -- has at most `2 * size + 1` steps for each of the `n` workers, in whatever order they step.
  pub worker_steps_bounded :
      {n size : ℕ} {p q : WorkerPool A} {all done : List A}
      → Reach key_of n size p all done
      → (w : Work p q) → steps w ≤ n * (2 * size + 1)
  worker_steps_bounded {n} {size} {p} {q} r w =
      let v = Reach-IsValid key_of r in
      let within : total n p ≤ n * (2 * size + 1) =
        total-le n size p (λ i. omega (arith, v.bounded i, v.bound)) in
      let counted = subst (λ m. steps w + total m q ≤ total m p) v.workers (steps-total w) in
      omega (arith, within, counted)

  pub Work-IsRunning : {p q : WorkerPool A} → Work p q → IsRunning p → IsRunning q
  Work-IsRunning unmoved h = h
  Work-IsRunning (took i w lt e) h = Step-IsRunning key_of (takes i lt e) (Work-IsRunning w h)
  Work-IsRunning (ended i a w lt e) h =
      Step-IsRunning key_of (finishes i a true lt e) (Work-IsRunning w h)

  rest-unfinished :
      (p : WorkerPool A) (i : ℕ) (t : Thread A) (q : List (Entry A))
      → p.threads i ≡ t
      → p.queues i ≡ q
      → t ≢ unstarted
      → t ≢ exited
      → take i p ≡ none
      → finish i p ≡ none
      → unfinished p i ≡ []
  unfolding take finish
  rest-unfinished p i unstarted q et eq s r no_take no_finish = absurd (s refl)
  rest-unfinished p i exited q et eq s r no_take no_finish = absurd (r refl)
  rest-unfinished p i (working a) q et eq s r no_take no_finish = absurd (ground arith)
  rest-unfinished p i waiting [] et eq s r no_take no_finish = rw (et, eq) refl
  rest-unfinished p i waiting (e ∷ q) et eq s r no_take no_finish = absurd (ground arith)

  -- A pool at rest has no work left: after a run of the workers alone, from a state that a pool can
  -- get into in which no sentinel is queued and no thread has returned, if no worker can step, then no
  -- worker has an item in hand or queued.
  pub at_rest_unfinished :
      {n size : ℕ} {p q : WorkerPool A} {all done : List A}
      → Reach key_of n size p all done
      → IsOpen p
      → Work p q
      → IsAtRest n q
      → (i : ℕ) → i < n
      → unfinished q i ≡ []
  at_rest_unfinished {n} {q} r o w rest i lt =
      let v = Reach-IsValid key_of r in
      let running = Work-IsRunning w (Reach-IsRunning key_of r) in
      rest-unfinished q i (q.threads i) (q.queues i) refl refl
        (running i (omega (arith, v.workers, Work-workers w))) ((Work-IsOpen w o).running i)
        (rest i lt).0 (rest i lt).1
