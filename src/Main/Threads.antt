-- ===== src/Main/Threads.antt =====
-- What the consumer thread and the workers keep while the main thread waits.
use mathlib.Core.Path.{subst}
use event_pipeline_extension.Prelude.{ℕ, ◌≡◌, refl, sym, ◌∙◌, ap, Bool, true, some, arith, inl, inr}
use event_pipeline_extension.EventId.{Codec}
use event_pipeline_extension.Pool.{exited, WorkerPool, take, finish, close, all_exited}
use event_pipeline_extension.Pool.Drain.{
  IsOpen, AllQuiet, close-AllQuiet, take-AllQuiet, finish-AllQuiet, all_exited-exited,
}
use event_pipeline_extension.Pool.Open.{submit-IsOpen, take-IsOpen, finish-IsOpen}
use event_pipeline_extension.Consumer.{Message}
use event_pipeline_extension.System
use event_pipeline_extension.System.{
  System, closed, after_run, after_commit, subscribes, fails_to_start, stores, dispatches, raises,
  poll_raises, idles, submits, drains, drained, waits, commits, stops, drained_last, closes_loop,
  takes, finishes, closes,
}
use event_pipeline_extension.System.Closing.{Step-closed}
use event_pipeline_extension.Main.{IsAllowed}

pub pool-after_run : (s : System) → (after_run s).pool ≡ s.pool
unfolding after_run
pool-after_run s = ground arith

pub pool-after_commit :
    (asynchronous accepted : Bool) (phase : System.Phase) (s : System)
    → (after_commit asynchronous accepted phase s).pool ≡ s.pool
unfolding after_commit
pool-after_commit asynchronous accepted phase s = refl

module _ (codec : Codec) where
  -- The other threads leave an open pool open.
  pub Step-IsOpen :
      {s t : System} (stop : Bool) (st : System.Step codec s t)
      → IsAllowed codec stop st
      → IsOpen s.pool
      → IsOpen t.pool
  Step-IsOpen stop (subscribes p) a o = o
  Step-IsOpen {s} stop (fails_to_start p) a o = subst IsOpen (sym (pool-after_run _)) o
  Step-IsOpen stop (dispatches m p e) a o = o
  Step-IsOpen stop (raises m ex p e) a o = o
  Step-IsOpen stop (poll_raises p) a o = o
  Step-IsOpen stop (idles p) a o = o
  Step-IsOpen {s} stop (submits m p e) a o = submit-IsOpen m.key m s.pool e o
  Step-IsOpen stop (drains c rest p e) a o = o
  Step-IsOpen stop (drained p e) a o = o
  Step-IsOpen stop (waits p) a o = o
  Step-IsOpen stop (commits accepted p) a o = subst IsOpen (sym (pool-after_commit _ _ _ _)) o
  Step-IsOpen stop (stops p) a o = o
  Step-IsOpen stop (drained_last p e) a o = o
  Step-IsOpen stop (closes_loop accepted p) a o =
      subst IsOpen (sym (pool-after_run _ ∙ pool-after_commit _ _ _ _)) o
  Step-IsOpen {s} stop (takes i lt e) a o = take-IsOpen i s.pool e o
  Step-IsOpen {s} stop (finishes i m success lt e) a o = finish-IsOpen i m s.pool e o
  Step-IsOpen stop (stores c) a o = o
  Step-IsOpen stop (closes i lt e) a o = absurd a

  -- Once the consumer thread has returned, only the workers move the pool.
  Step-AllQuiet :
      {s t : System} → System.Step codec s t → s.phase ≡ closed → AllQuiet s.pool → AllQuiet t.pool
  Step-AllQuiet (subscribes p) c q = cc
  Step-AllQuiet (fails_to_start p) c q = cc
  Step-AllQuiet (dispatches m p e) c q = cc
  Step-AllQuiet (raises m ex p e) c q = cc
  Step-AllQuiet (poll_raises p) c q = cc
  Step-AllQuiet (idles p) c q = cc
  Step-AllQuiet (submits m p e) c q = cc
  Step-AllQuiet (drains d rest (inl p) e) c q = cc
  Step-AllQuiet (drains d rest (inr p) e) c q = cc
  Step-AllQuiet (drained p e) c q = cc
  Step-AllQuiet (waits p) c q = cc
  Step-AllQuiet (commits accepted p) c q = cc
  Step-AllQuiet (stops p) c q = cc
  Step-AllQuiet (drained_last p e) c q = cc
  Step-AllQuiet (closes_loop accepted p) c q = cc
  Step-AllQuiet {s} (takes i lt e) c q = take-AllQuiet i s.pool e q
  Step-AllQuiet {s} (finishes i m success lt e) c q = finish-AllQuiet i m s.pool e q
  Step-AllQuiet (stores d) c q = q
  Step-AllQuiet {s} (closes i lt e) c q = unfold close in close-AllQuiet i s.pool e q

  take-exited :
      (i : ℕ) (p : WorkerPool Message) {p' : WorkerPool Message}
      → p.threads i ≡ exited
      → take i p ≡ some p'
      → ⊥
  unfolding take
  take-exited i p gone e = ground arith

  finish-exited :
      (i : ℕ) (m : Message) (p : WorkerPool Message) {p' : WorkerPool Message}
      → p.threads i ≡ exited
      → finish i p ≡ some (m, p')
      → ⊥
  unfolding finish
  finish-exited i m p gone e = ground arith

  -- The consumer thread and every worker have returned, the loop without an error.
  pub record IsDone (s : System) : Type 0 where
    pub returned : s.phase ≡ closed
    pub clean : s.consumer.exit_code ≡ 0
    pub quiet : AllQuiet s.pool

  abbrev pub AllExited : System → Type 0
  AllExited s = all_exited s.pool.num_workers s.pool ≡ true

  pub Step-IsDone : {s t : System} → System.Step codec s t → IsDone s → IsDone t
  Step-IsDone {s} {t} st d =
      let v = Step-closed codec st d.returned in
      record {
        returned = v.0;
        clean = ap (λ c. c.exit_code) v.2 ∙ d.clean;
        quiet = Step-AllQuiet st d.returned d.quiet;
      }

  -- Workers that have returned make no step.
  pub Step-AllExited :
      {s t : System} (stop : Bool) (st : System.Step codec s t)
      → IsAllowed codec stop st
      → s.phase ≡ closed
      → AllExited s
      → AllExited t
  Step-AllExited stop (subscribes p) a c h = cc
  Step-AllExited stop (fails_to_start p) a c h = cc
  Step-AllExited stop (dispatches m p e) a c h = h
  Step-AllExited stop (raises m ex p e) a c h = h
  Step-AllExited stop (poll_raises p) a c h = h
  Step-AllExited stop (idles p) a c h = h
  Step-AllExited stop (submits m p e) a c h = cc
  Step-AllExited stop (drains d rest p e) a c h = h
  Step-AllExited stop (drained p e) a c h = h
  Step-AllExited stop (waits p) a c h = h
  Step-AllExited stop (commits accepted p) a c h = cc
  Step-AllExited stop (stops p) a c h = h
  Step-AllExited stop (drained_last p e) a c h = h
  Step-AllExited stop (closes_loop accepted p) a c h = cc
  Step-AllExited {s} stop (takes i lt e) a c h =
      absurd (take-exited i s.pool (all_exited-exited s.pool.num_workers s.pool i h lt) e)
  Step-AllExited {s} stop (finishes i m success lt e) a c h =
      absurd (finish-exited i m s.pool (all_exited-exited s.pool.num_workers s.pool i h lt) e)
  Step-AllExited stop (stores d) a c h = h
  Step-AllExited stop (closes i lt e) a c h = absurd a
