-- ===== src/Main/Waiting.antt =====
-- `pool.shutdown` of the main thread: its joins end, whatever the other threads did.
use mathlib.Core.Path.{subst}
use event_pipeline_extension.Prelude.{
  ℕ, ◌+◌, ◌<◌, ◌≡◌, true, some, arith, nat_beq, nat_beq_iff, Bool-cases, inl, inr,
}
use event_pipeline_extension.EventId.{Codec}
use event_pipeline_extension.Pool.{WorkerPool, close, all_exited}
use event_pipeline_extension.Pool.Steps as Steps
use event_pipeline_extension.Pool.Runs.{Reach-IsValid}
use event_pipeline_extension.Pool.Blocked.{Work}
use event_pipeline_extension.Pool.Termination.{IsAtRest}
use event_pipeline_extension.Pool.Settles.{rest_reached}
use event_pipeline_extension.Pool.Closed.{
  IsClosedAt, Step-IsClosedAt, close-IsClosedAt, at_rest_exited,
}
use event_pipeline_extension.Consumer.{Message}
use event_pipeline_extension.System
use event_pipeline_extension.System.{
  System, subscribes, fails_to_start, stores, dispatches, raises, poll_raises, idles, submits,
  drains, drained, waits, commits, stops, drained_last, closes_loop, takes, finishes, closes,
}
use event_pipeline_extension.System.Order.{key_of, Reach-run}
use event_pipeline_extension.Main.{
  Place, serving, joining, reading, closing, flushing, ended, Process, Step, threads, served,
  joined, reads, puts, all_put, shut, flushes, Reach, begun, later,
}
use event_pipeline_extension.Main as Main
use event_pipeline_extension.Main.Threads.{pool-after_run}
use event_pipeline_extension.Main.Graceful.{Reach-System}

module _ (codec : Codec) where
  -- What a step leaves of the pool: a worker that is closed stays so.
  System-IsClosedAt :
      {s t : System} (i : ℕ) → System.Step codec s t → IsClosedAt s.pool i → IsClosedAt t.pool i
  unfolding System.after_commit
  System-IsClosedAt i (subscribes p) c = c
  System-IsClosedAt i (fails_to_start p) c = rw (pool-after_run _) c
  System-IsClosedAt i (dispatches m p e) c = c
  System-IsClosedAt i (raises m ex p e) c = c
  System-IsClosedAt i (poll_raises p) c = c
  System-IsClosedAt i (idles p) c = c
  System-IsClosedAt i (submits m p e) c = Step-IsClosedAt key_of i (Steps.submits m e) c
  System-IsClosedAt i (drains d rest p e) c = c
  System-IsClosedAt i (drained p e) c = c
  System-IsClosedAt i (waits p) c = c
  System-IsClosedAt i (commits accepted p) c = c
  System-IsClosedAt i (stops p) c = c
  System-IsClosedAt i (drained_last p e) c = c
  System-IsClosedAt i (closes_loop accepted p) c = rw (pool-after_run _) c
  System-IsClosedAt i (takes j lt e) c = Step-IsClosedAt key_of i (Steps.takes j lt e) c
  System-IsClosedAt i (finishes j m success lt e) c =
      Step-IsClosedAt key_of i (Steps.finishes j m success lt e) c
  System-IsClosedAt i (stores d) c = c
  System-IsClosedAt i (closes j lt e) c = Step-IsClosedAt key_of i (Steps.closes j lt e) c

  -- The workers whose sentinels are put, at each place of the main thread.
  abbrev Sent : ℕ → Place → System → Type 0
  Sent n (closing k) s = (i : ℕ) → i < k → IsClosedAt s.pool i
  Sent n Main.waiting s = (i : ℕ) → i < n → IsClosedAt s.pool i
  Sent n _ s = Unit

  threads-Sent :
      (n : ℕ) (place : Place) {s t : System}
      → System.Step codec s t
      → Sent n place s
      → Sent n place t
  threads-Sent n serving st h = tt
  threads-Sent n joining st h = tt
  threads-Sent n reading st h = tt
  threads-Sent n (closing k) st h = λ i lt. System-IsClosedAt i st (h i lt)
  threads-Sent n Main.waiting st h = λ i lt. System-IsClosedAt i st (h i lt)
  threads-Sent n flushing st h = tt
  threads-Sent n ended st h = tt

  at_place :
      (n : ℕ) (p : Process) (place : Place)
      → p.place ≡ place
      → Sent n p.place p.system
      → Sent n place p.system
  at_place n p place at h = subst (λ w. Sent n w p.system) at h

  puts-Sent :
      (n k : ℕ) (p : Process) {pool : WorkerPool Message}
      → k < p.system.pool.num_workers
      → close k p.system.pool ≡ some pool
      → Sent n (closing k) p.system
      → Sent n (closing (k + 1)) (record p.system { pool = pool })
  puts-Sent n k p {pool} lt e h i below = elim (Bool-cases (nat_beq k i)) [
    | inl here ↦
        subst (IsClosedAt pool) ((nat_beq_iff k i).0 here) (close-IsClosedAt k p.system.pool e)
    | inr other ↦ Step-IsClosedAt key_of i (Steps.closes k lt e) (h i (ground arith))
  ]

  Step-Sent :
      {n : ℕ} {p q : Process}
      → p.system.pool.num_workers ≡ n
      → Step codec p q
      → Sent n p.place p.system
      → Sent n q.place q.system
  Step-Sent {n} {p} count (threads st a) h = threads-Sent n p.place st h
  Step-Sent count (served crashed at) h = tt
  Step-Sent count (joined alive at gone) h = tt
  Step-Sent count (reads at) h = λ i lt. absurd (omega arith)
  Step-Sent {n} {p} count (puts k at lt e) h = puts-Sent n k p lt e (at_place n p (closing k) at h)
  Step-Sent {n} {p} count (all_put at) h =
      λ i lt. at_place n p (closing p.system.pool.num_workers) at h i (omega (arith, count))
  Step-Sent count (shut stopped at gone) h = tt
  Step-Sent count (flushes remaining at) h = tt

  Reach-Sent : {n size : ℕ} {p : Process} → Reach codec n size p → Sent n p.place p.system
  Reach-Sent (begun a b) = tt
  Reach-Sent (later r st) =
      Step-Sent (Reach-IsValid key_of (Reach-run codec (Reach-System codec r))).workers st
        (Reach-Sent r)

  -- The joins of `pool.shutdown` end: once the main thread has put its sentinels, whatever the other
  -- threads did before, every run of the workers alone that cannot go on ends with all of them
  -- returned.
  pub waiting_ends :
      {n size : ℕ} {p : Process}
      → Reach codec n size p
      → p.place ≡ Main.waiting
      → {q : WorkerPool Message} → Work p.system.pool q
      → IsAtRest n q
      → all_exited n q ≡ true
  waiting_ends {n} {p} r at w rest =
      at_rest_exited key_of (Reach-run codec (Reach-System codec r))
        (at_place n p Main.waiting at (Reach-Sent r)) w rest

  -- Once the main thread has put its sentinels, some run of the workers alone ends with all of them
  -- returned, whatever the other threads did before: the joins can succeed.
  pub waiting_settles :
      {n size : ℕ} {p : Process}
      → Reach codec n size p
      → p.place ≡ Main.waiting
      → (q : WorkerPool Message) × Work p.system.pool q × (all_exited n q ≡ true)
  waiting_settles {n} {p} r at =
      let v = Reach-IsValid key_of (Reach-run codec (Reach-System codec r)) in
      let (q, w, rest) = rest_reached p.system.pool in
      (q, w, waiting_ends r at w (subst (λ m. IsAtRest m q) v.workers rest))
