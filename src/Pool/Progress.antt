-- ===== src/Pool/Progress.antt =====
-- `shutdown` can always come to its end: some run of the threads empties every queue.
use mathlib.Core.Path.{subst}
use event_pipeline_extension.Prelude.{
  sym, ℕ, zero, suc, ◌<◌, ◌≤◌, ◌≡◌, ◌≢◌, refl, ◌∙◌, true, false, some, List, [], ◌∷◌, arith,
  nat_beq, nat_beq_self,
}
use event_pipeline_extension.Pool.{
  Key, Entry, item, sentinel, Thread, waiting, working, unstarted, exited, WorkerPool, update, put,
  close, take, finish, all_exited,
}
use event_pipeline_extension.Pool.Steps.{takes, finishes, closes}
use event_pipeline_extension.Pool.Runs.{Reach, Reach-IsValid}
use event_pipeline_extension.Pool.Drain.{Drain, here, next, IsOpen, IsPlain}
use event_pipeline_extension.Pool.Running.{took_head, IsRunning, Reach-IsRunning}

module _ {A : Type 0} where
  pub take-head :
      (i : ℕ) (e : Entry A) (rest : List (Entry A)) (p : WorkerPool A)
      → p.threads i ≡ waiting
      → p.queues i ≡ e ∷ rest
      → take i p ≡ some (took_head i e rest p)
  unfolding take
  take-head i e rest p idle full = rw (idle, full) refl

  pub finish-working :
      (i : ℕ) (a : A) (p : WorkerPool A)
      → p.threads i ≡ working a
      → finish i p ≡ some (a, record p { threads = update p.threads i waiting })
  unfolding finish
  finish-working i a p busy = rw busy refl

  close-nil :
      (i : ℕ) (p : WorkerPool A)
      → p.queues i ≡ []
      → 0 < p.queue_size
      → close i p ≡ some (record p { queues = update p.queues i (sentinel ∷ []) })
  unfolding close put
  close-nil i p empty room = rw empty (ground arith)

  all_exited-same :
      (n : ℕ) (p q : WorkerPool A)
      → ((j : ℕ) → j < n → q.threads j ≡ p.threads j)
      → all_exited n p ≡ true
      → all_exited n q ≡ true
  unfolding all_exited
  all_exited-same zero p q same h = refl
  all_exited-same (suc n) p q same h =
      ground (arith, same n, all_exited-same n p q (λ j lt. same j (omega arith)))

  pub all_exited-suc :
      (n : ℕ) (p : WorkerPool A)
      → p.threads n ≡ exited
      → all_exited n p ≡ true
      → all_exited (suc n) p ≡ true
  unfolding all_exited
  all_exited-suc n p gone before = ground arith

module _ {A : Type 0} (key_of : A → Key) where
  -- A run from `p₀` by way of `p`, after which worker `i` has returned and no other has moved.
  record Emptied (p₀ p : WorkerPool A) (i : ℕ) : Type 0 where
    last : WorkerPool A
    more : List A
    drain : Drain key_of p₀ last more
    workers : last.num_workers ≡ p.num_workers
    size : last.queue_size ≡ p.queue_size
    gone : last.threads i ≡ exited
    threads : (j : ℕ) → nat_beq i j ≡ false → last.threads j ≡ p.threads j
    queues : (j : ℕ) → nat_beq i j ≡ false → last.queues j ≡ p.queues j

  -- Worker `i` takes one item after the other, and then the sentinel.
  empty_waiting :
      (p₀ p : WorkerPool A) {more : List A} (i : ℕ) (q : List (Entry A))
      → Drain key_of p₀ p more
      → i < p.num_workers
      → 0 < p.queue_size
      → p.threads i ≡ waiting
      → p.queues i ≡ q
      → IsPlain q
      → Emptied p₀ p i
  empty_waiting p₀ p i [] d lt room idle empty plain =
      let closed = record p { queues = update p.queues i (sentinel ∷ []) } in
      record {
        last = took_head i sentinel [] closed;
        more = _;
        drain =
            next (next d (closes i lt (close-nil i p empty room)) refl)
              (takes i lt (take-head i sentinel [] closed idle (rw (nat_beq_self i) refl))) refl;
        workers = refl;
        size = refl;
        gone = rw (nat_beq_self i) refl;
        threads = λ j h. rw h refl;
        queues = λ j h. rw h refl;
      }
  empty_waiting p₀ p i (sentinel ∷ q) d lt room idle full plain = absurd plain
  empty_waiting p₀ p i (item a ∷ q) d lt room idle full plain =
      let busy = took_head i (item a) q p in
      let free = record busy { threads = update busy.threads i waiting } in
      let rest =
        empty_waiting p₀ free i q
          (next (next d (takes i lt (take-head i (item a) q p idle full)) refl)
            (finishes i a true lt (finish-working i a busy (rw (nat_beq_self i) refl))) refl)
          lt room (rw (nat_beq_self i) refl) (rw (nat_beq_self i) refl) plain in
      record {
        last = rest.last;
        more = rest.more;
        drain = rest.drain;
        workers = rest.workers;
        size = rest.size;
        gone = rest.gone;
        threads = λ j h. rest.threads j h ∙ rw h refl;
        queues = λ j h. rest.queues j h ∙ rw h refl;
      }

  -- A worker with work in hand ends it first.
  empty_worker :
      (p₀ p : WorkerPool A) {more : List A} (i : ℕ) (t : Thread A)
      → Drain key_of p₀ p more
      → i < p.num_workers
      → 0 < p.queue_size
      → p.threads i ≡ t
      → t ≢ unstarted
      → t ≢ exited
      → IsPlain (p.queues i)
      → Emptied p₀ p i
  empty_worker p₀ p i waiting d lt room now s r plain =
      empty_waiting p₀ p i (p.queues i) d lt room now refl plain
  empty_worker p₀ p i unstarted d lt room now s r plain = absurd (s refl)
  empty_worker p₀ p i exited d lt room now s r plain = absurd (r refl)
  empty_worker p₀ p i (working a) d lt room now s r plain =
      let free = record p { threads = update p.threads i waiting } in
      let rest =
        empty_waiting p₀ free i (p.queues i)
          (next d (finishes i a true lt (finish-working i a p now)) refl) lt room
          (rw (nat_beq_self i) refl) refl plain in
      record {
        last = rest.last;
        more = rest.more;
        drain = rest.drain;
        workers = rest.workers;
        size = rest.size;
        gone = rest.gone;
        threads = λ j h. rest.threads j h ∙ rw h refl;
        queues = rest.queues;
      }

  -- The workers below `k` have returned, and the others have not moved.
  record EmptiedBelow (p : WorkerPool A) (k : ℕ) : Type 0 where
    last : WorkerPool A
    more : List A
    drain : Drain key_of p last more
    workers : last.num_workers ≡ p.num_workers
    size : last.queue_size ≡ p.queue_size
    gone : all_exited k last ≡ true
    threads : (j : ℕ) → k ≤ j → last.threads j ≡ p.threads j
    queues : (j : ℕ) → k ≤ j → last.queues j ≡ p.queues j

  empty_below :
      (p : WorkerPool A) (k : ℕ)
      → k ≤ p.num_workers
      → 0 < p.queue_size
      → IsRunning p
      → IsOpen p
      → EmptiedBelow p k
  unfolding all_exited
  empty_below p zero le room r o = record {
    last = p;
    more = [];
    drain = here;
    workers = refl;
    size = refl;
    gone = refl;
    threads = λ j h. refl;
    queues = λ j h. refl;
  }
  empty_below p (suc k) le room r o =
      let v = empty_below p k (omega arith) room r o in
      let w =
        empty_worker p v.last k (p.threads k) v.drain (omega (arith, v.workers))
          (omega (arith, v.size)) (v.threads k (omega arith)) (r k (omega arith)) (o.running k)
          (subst IsPlain (sym (v.queues k (omega arith))) (o.plain k)) in
      let before : all_exited k w.last ≡ true =
        all_exited-same k v.last w.last (λ j lt. w.threads j (ground arith)) v.gone in
      record {
        last = w.last;
        more = w.more;
        drain = w.drain;
        workers = w.workers ∙ v.workers;
        size = w.size ∙ v.size;
        gone = all_exited-suc k w.last w.gone before;
        threads = λ j h. w.threads j (ground arith) ∙ v.threads j (omega arith);
        queues = λ j h. w.queues j (ground arith) ∙ v.queues j (omega arith);
      }

  -- Shutdown can always end: from every state that a pool can get into and in which no sentinel is
  -- queued and no thread has returned, some run without a further submission ends with every thread
  -- returned, however full the queues are.
  pub shutdown_possible :
      {n size : ℕ} {p : WorkerPool A} {all done : List A}
      → Reach key_of n size p all done
      → IsOpen p
      → (p' : WorkerPool A) × (more : List A) × Drain key_of p p' more
        × (all_exited p'.num_workers p' ≡ true)
  shutdown_possible {p} x o =
      let v = Reach-IsValid key_of x in
      let w =
        empty_below p p.num_workers (omega arith) (omega (arith, v.positive.1, v.bound))
          (Reach-IsRunning key_of x) o in
      (w.last, w.more, w.drain, rw w.workers w.gone)
