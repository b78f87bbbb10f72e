-- ===== src/Main/Graceful.antt =====
-- What an exit with code 0 says of the consumer thread and of the workers.
use mathlib.Core.Path.{subst}
use mathlib.Core.List.{append-nil}
use event_pipeline_extension.Prelude.{
  ℕ, ◌<◌, ◌≡◌, sym, ◌∙◌, ap, Bool, true, false, Option, [], ◌++◌, arith,
}
use event_pipeline_extension.EventId.{Codec}
use event_pipeline_extension.Pool.{Key, route, close, all_exited}
use event_pipeline_extension.Pool.Order.{of_key, unfinished}
use event_pipeline_extension.Pool.Bounds.{route-lt}
use event_pipeline_extension.Pool.Drain.{IsOpen, IsOpen-AllQuiet, close-AllQuiet, all_exited-exited}
use event_pipeline_extension.Pool.Open.{start-IsOpen}
use event_pipeline_extension.Shutdown.{after_join, after_consumer, after_pool, after_flush}
use event_pipeline_extension.System
use event_pipeline_extension.System.{
  System, closed, after_run, after_commit, subscribes, fails_to_start, stores, dispatches, raises,
  poll_raises, idles, submits, drains, drained, waits, commits, stops, drained_last, closes_loop,
  takes, finishes, closes,
}
use event_pipeline_extension.System.Closing.{Step-closed}
use event_pipeline_extension.System.Order.{key_of, in_order, submitted, worked, per_key_order}
use event_pipeline_extension.Main.{
  Place, serving, joining, reading, closing, waiting, flushing, ended, Process, IsAllowed, Step,
  threads, served, joined, reads, puts, all_put, shut, flushes, Reach, begun, later,
}
use event_pipeline_extension.Pool.Runs.{Reach-IsValid}
use event_pipeline_extension.System.Order.{Reach-run}
use event_pipeline_extension.Main.Threads.{
  Step-IsOpen, Step-IsDone, Step-AllExited, IsDone, AllExited,
}

module _ (codec : Codec) where
  -- What is known at each place of the main thread.
  abbrev Known : Place → ℕ → System → Type 0
  Known serving code s = IsOpen s.pool
  Known joining code s = IsOpen s.pool
  Known reading code s = IsOpen s.pool × (code ≡ 0 → s.phase ≡ closed)
  Known (closing i) code s = code ≡ 0 → IsDone codec s
  Known waiting code s = code ≡ 0 → IsDone codec s
  Known flushing code s = code ≡ 0 → IsDone codec s × AllExited codec s
  Known ended code s = code ≡ 0 → IsDone codec s × AllExited codec s

  threads-Known :
      (place : Place) (code : ℕ) {s t : System} (stop : Bool) (st : System.Step codec s t)
      → IsAllowed codec stop st
      → Known place code s
      → Known place code t
  threads-Known serving code stop st a k = Step-IsOpen codec stop st a k
  threads-Known joining code stop st a k = Step-IsOpen codec stop st a k
  threads-Known reading code stop st a k =
      (Step-IsOpen codec stop st a k.0, λ z. (Step-closed codec st (k.1 z)).0)
  threads-Known (closing i) code stop st a k = λ z. Step-IsDone codec st (k z)
  threads-Known waiting code stop st a k = λ z. Step-IsDone codec st (k z)
  threads-Known flushing code stop st a k =
      λ z. (Step-IsDone codec st (k z).0, Step-AllExited codec stop st a (k z).0.returned (k z).1)
  threads-Known ended code stop st a k =
      λ z. (Step-IsDone codec st (k z).0, Step-AllExited codec stop st a (k z).0.returned (k z).1)

  after_join-zero : (alive : Bool) (code : ℕ) → after_join alive code ≡ 0 → alive ≡ false
  after_join-zero alive code h = ground arith

  after_consumer-zero :
      (consumer_exit code : ℕ)
      → after_consumer consumer_exit code ≡ 0
      → (consumer_exit ≡ 0) × (code ≡ 0)
  after_consumer-zero consumer_exit code h = ground arith

  after_pool-zero :
      (stopped : Bool) (code : ℕ) → after_pool stopped code ≡ 0 → (stopped ≡ true) × (code ≡ 0)
  after_pool-zero stopped code h = ground arith

  after_flush-zero : (remaining : Option ℕ) (code : ℕ) → after_flush remaining code ≡ 0 → code ≡ 0
  after_flush-zero remaining code h = ground arith

  at_place :
      (p : Process) (place : Place)
      → p.place ≡ place
      → Known p.place p.exit_code p.system
      → Known place p.exit_code p.system
  at_place p place at k = subst (λ w. Known w p.exit_code p.system) at k

  Step-Known :
      {p q : Process}
      → Step codec p q
      → Known p.place p.exit_code p.system
      → Known q.place q.exit_code q.system
  Step-Known {p} (threads st a) k = threads-Known p.place p.exit_code p.stop st a k
  Step-Known {p} (served crashed at) k = at_place p serving at k
  Step-Known {p} (joined alive at gone) k =
      (at_place p joining at k, λ z. gone (after_join-zero alive p.exit_code z))
  Step-Known {p} (reads at) k = λ z.
      let known = at_place p reading at k in
      let zeros = after_consumer-zero p.system.consumer.exit_code p.exit_code z in
      record {
        returned = known.1 zeros.1;
        clean = zeros.0;
        quiet = IsOpen-AllQuiet p.system.pool known.0;
      }
  Step-Known {p} (puts i at lt e) k = λ z.
      let d = at_place p (closing i) at k z in
      record {
        returned = d.returned;
        clean = d.clean;
        quiet = unfold close in close-AllQuiet i p.system.pool e d.quiet;
      }
  Step-Known {p} (all_put at) k = at_place p (closing p.system.pool.num_workers) at k
  Step-Known {p} (shut stopped at gone) k = λ z.
      let zeros = after_pool-zero stopped p.exit_code z in
      (at_place p waiting at k zeros.1, gone zeros.0)
  Step-Known {p} (flushes remaining at) k =
      λ z. at_place p flushing at k (after_flush-zero remaining p.exit_code z)

  Reach-Known :
      {n size : ℕ} {p : Process} → Reach codec n size p → Known p.place p.exit_code p.system
  Reach-Known {n} {size} (begun a b) = start-IsOpen n size a b
  Reach-Known (later r st) = Step-Known st (Reach-Known r)

  -- The steps of the main thread are steps that the system allows.
  pub Reach-System :
      {n size : ℕ} {p : Process} → Reach codec n size p → System.Reach codec n size p.system
  Reach-System (begun a b) = System.begun a b
  Reach-System (later r (threads st a)) = System.later (Reach-System r) st
  Reach-System (later r (served crashed at)) = Reach-System r
  Reach-System (later r (joined alive at gone)) = Reach-System r
  Reach-System (later r (reads at)) = Reach-System r
  Reach-System (later r (puts i at lt e)) = System.later (Reach-System r) (closes i lt e)
  Reach-System (later r (all_put at)) = Reach-System r
  Reach-System (later r (shut stopped at gone)) = Reach-System r
  Reach-System (later r (flushes remaining at)) = Reach-System r

  -- Graceful shutdown of the process: if it ends with exit code 0, whatever the interleaving was, the
  -- consumer thread has returned with exit code 0, every worker has returned, and the messages of
  -- each key that were ever read have all been worked on, in the order in which they were read.
  pub exit_zero_graceful :
      {n size : ℕ} {p : Process}
      → Reach codec n size p
      → p.place ≡ ended
      → p.exit_code ≡ 0
      → (p.system.phase ≡ closed)
        × (p.system.consumer.exit_code ≡ 0)
        × (all_exited n p.system.pool ≡ true)
        × ((k : Key)
            → of_key key_of k (in_order p.system.polled)
              ≡ of_key key_of k (in_order (worked p.system.finished)))
  exit_zero_graceful {n} {p} r at z =
      let (d, out) = at_place p ended at (Reach-Known r) z in
      let v = Reach-IsValid key_of (Reach-run codec (Reach-System r)) in
      let gone : all_exited n p.system.pool ≡ true =
        subst (λ m. all_exited m p.system.pool ≡ true) v.workers out in
      (d.returned, d.clean, gone, λ k. all_worked k d v.positive.0 gone)
    where
      all_worked :
          (k : Key)
          → IsDone codec p.system
          → 0 < n
          → all_exited n p.system.pool ≡ true
          → of_key key_of k (in_order p.system.polled)
            ≡ of_key key_of k (in_order (worked p.system.finished))
      all_worked k d positive gone =
          let i = route n k in
          let exit = all_exited-exited n p.system.pool i gone (route-lt n k positive) in
          let nothing : unfinished p.system.pool i ≡ [] = rw (exit, (d.quiet i).drained exit) in
          ap (λ ph. of_key key_of k (in_order (submitted ph p.system.polled))) (sym d.returned)
          ∙ per_key_order codec (Reach-System r) k
          ∙ ap (λ l. of_key key_of k (in_order (worked p.system.finished)) ++ of_key key_of k l)
              nothing
          ∙ append-nil _
