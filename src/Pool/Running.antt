-- ===== src/Pool/Running.antt =====
-- The threads of a pool: once started, none is as before the start.
use mathlib.Core.Path.{subst}
use event_pipeline_extension.Prelude.{
  sym, ℕ, ◌<◌, ◌≡◌, ◌≢◌, some, List, ◌∷◌, arith, nat_beq, Bool-cases, inl, inr,
}
use event_pipeline_extension.Prelude.Result.{ok}
use event_pipeline_extension.Pool.{
  Key, Entry, item, sentinel, Thread, waiting, unstarted, WorkerPool, update, begin, init, start,
  put, submit, close, take,
}
use event_pipeline_extension.Pool.Steps.{Event, Step, submits, takes, finishes, closes}
use event_pipeline_extension.Pool.Order.{put-eq-some, take_cases}
use event_pipeline_extension.Pool.Runs.{Reach, begun, later}
use event_pipeline_extension.Pool.Drain.{finish-eq}

module _ {A : Type 0} where
  -- What becomes of a pool when a worker takes the head of its queue.
  abbrev pub took_head : ℕ → Entry A → List (Entry A) → WorkerPool A → WorkerPool A
  took_head i e rest p = record p {
    queues = update p.queues i rest;
    threads = update p.threads i (begin e);
  }

  -- Every thread is started.
  abbrev pub IsRunning : WorkerPool A → Type 0
  IsRunning p = (i : ℕ) → i < p.num_workers → p.threads i ≢ unstarted

  pub taken_cases :
      (j : ℕ) (p : WorkerPool A) {p' : WorkerPool A}
      → take j p ≡ some p'
      → (e : Entry A) × (rest : List (Entry A)) × (p.threads j ≡ waiting)
        × (p.queues j ≡ e ∷ rest)
        × (p' ≡ took_head j e rest p)
  unfolding take
  taken_cases j p h = take_cases j p (p.threads j) (p.queues j) h

module _ {A : Type 0} (key_of : A → Key) where
  started-IsRunning :
      (n size : ℕ) {p₀ p : WorkerPool A} → init n size ≡ ok p₀ → start p₀ ≡ ok p → IsRunning p
  unfolding init start
  started-IsRunning n size a b i lt e = ground arith

  put-IsRunning :
      (j : ℕ) (e : Entry A) (p : WorkerPool A) {p' : WorkerPool A}
      → put j e p ≡ some p'
      → IsRunning p
      → IsRunning p'
  put-IsRunning j e p h r = subst IsRunning (sym (put-eq-some j e p h)) r

  begin_started : (e : Entry A) → begin e ≢ unstarted
  begin_started (item a) h = cc
  begin_started sentinel h = cc

  update-IsRunning :
      (j : ℕ) (t : Thread A) (p : WorkerPool A)
      → t ≢ unstarted
      → IsRunning p
      → IsRunning (record p { threads = update p.threads j t })
  update-IsRunning j t p s r i lt = elim (Bool-cases (nat_beq j i)) [
    | inl same ↦ rw same s
    | inr other ↦ rw other (r i lt)
  ]

  pub Step-IsRunning :
      {p p' : WorkerPool A} {ev : Event A} → Step key_of p ev p' → IsRunning p → IsRunning p'
  Step-IsRunning {p} (submits a e) r = unfold submit in put-IsRunning _ (item a) p e r
  Step-IsRunning {p} (takes i lt e) r =
      let (head, rest, idle, full, after) = taken_cases i p e in
      subst IsRunning (sym after) (
        update-IsRunning i (begin head) (record p { queues = update p.queues i rest })
          (begin_started head) r)
  Step-IsRunning {p} (finishes i a success lt e) r =
      subst IsRunning (sym (finish-eq i a p e)) (update-IsRunning i waiting p (λ h. cc) r)
  Step-IsRunning {p} (closes i lt e) r = unfold close in put-IsRunning i sentinel p e r

  pub Reach-IsRunning :
      {n size : ℕ} {p : WorkerPool A} {all done : List A}
      → Reach key_of n size p all done
      → IsRunning p
  Reach-IsRunning {n} {size} (begun a b) = started-IsRunning n size a b
  Reach-IsRunning (later r st) = Step-IsRunning st (Reach-IsRunning r)
