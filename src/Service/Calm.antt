-- ===== src/Service/Calm.antt =====
-- What the steps that are no effects of some work leave as it is.
use event_pipeline_extension.Prelude.{
  ℕ, String, ◌≡◌, refl, inl, inr, Bool, true, false, some, nat_beq, nat_beq_iff, Bool-cases,
  if◌then◌else◌,
}
use event_pipeline_extension.EventId.{Codec}
use event_pipeline_extension.Pool.{Entry, WorkerPool, working, put, submit, take, close}
use event_pipeline_extension.Pool.Order.{put-eq-some, take_cases}
use event_pipeline_extension.System
use event_pipeline_extension.System.{
  System, after_run, after_commit, subscribes, fails_to_start, stores, dispatches, raises,
  poll_raises, idles, submits, drains, drained, waits, commits, stops, drained_last, closes_loop,
  takes, finishes, closes,
}
use event_pipeline_extension.Service.{IsOther}
use event_pipeline_extension.Service.Objects.{IsNoted, dispatch-IsNoted}

module _ {A : Type 0} where
  -- A worker that is at work stays at it.
  abbrev pub Busy : WorkerPool A → WorkerPool A → Type 0
  Busy p q = (i : ℕ) (a : A) → p.threads i ≡ working a → q.threads i ≡ working a

  put-Busy :
      (j : ℕ) (e : Entry A) (p : WorkerPool A) {q : WorkerPool A} → put j e p ≡ some q → Busy p q
  put-Busy j e p h i a busy = rw (put-eq-some j e p h) busy

  take-Busy : (j : ℕ) (p : WorkerPool A) {q : WorkerPool A} → take j p ≡ some q → Busy p q
  unfolding take
  take-Busy j p h i a busy =
      let (e, rest, idle, full, after) = take_cases j p (p.threads j) (p.queues j) h in
      elim (Bool-cases (nat_beq j i)) [
        | inl here ↦ let same : j ≡ i = (nat_beq_iff j i).0 here in cc
        | inr other ↦ rw (after, other) busy
      ]

module _ (codec : Codec) where
  pub record IsCalm (s t : System) : Type 0 where
    pub busy : Busy s.pool t.pool
    pub noted : (e : String) → IsNoted s.store e → IsNoted t.store e
    pub finished : t.finished ≡ s.finished

  same_pool :
      (s t : System) → t.pool ≡ s.pool → t.store ≡ s.store → t.finished ≡ s.finished → IsCalm s t
  same_pool s t p q r = record { busy = λ i m h. rw p h; noted = λ e h. rw q h; finished = r }

  after_run-IsCalm : (s t : System) → IsCalm s t → IsCalm s (after_run t)
  unfolding after_run
  after_run-IsCalm s t c =
      elim t.crashed
        as (λ b.
          IsCalm s (if b then record t { consumer = record t.consumer { exit_code = 1 } } else t)) [
            | true ↦ record { busy = c.busy; noted = c.noted; finished = c.finished }
            | false ↦ c
          ]

  after_commit-IsCalm :
      (asynchronous accepted : Bool) (phase : System.Phase) (s : System)
      → IsCalm s (after_commit asynchronous accepted phase s)
  unfolding after_commit
  after_commit-IsCalm asynchronous accepted phase s = same_pool s _ refl refl refl

  pub Step-IsCalm : {s t : System} (st : System.Step codec s t) → IsOther codec st → IsCalm s t
  Step-IsCalm {s} (subscribes p) a = same_pool s _ refl refl refl
  Step-IsCalm {s} (fails_to_start p) a = after_run-IsCalm s _ (same_pool s _ refl refl refl)
  Step-IsCalm {s} (dispatches m p e) a = record {
    busy = λ i m h. h;
    noted = λ id h. dispatch-IsNoted codec m s.store s.consumer id e h;
    finished = refl;
  }
  Step-IsCalm {s} (raises m ex p e) a = same_pool s _ refl refl refl
  Step-IsCalm {s} (poll_raises p) a = same_pool s _ refl refl refl
  Step-IsCalm {s} (idles p) a = same_pool s _ refl refl refl
  Step-IsCalm {s} (submits m p e) a = record {
    busy = unfold submit in put-Busy _ _ s.pool e;
    noted = λ id h. h;
    finished = refl;
  }
  Step-IsCalm {s} (drains c rest p e) a = same_pool s _ refl refl refl
  Step-IsCalm {s} (drained p e) a = same_pool s _ refl refl refl
  Step-IsCalm {s} (waits p) a = same_pool s _ refl refl refl
  Step-IsCalm {s} (commits accepted p) a = after_commit-IsCalm _ _ _ s
  Step-IsCalm {s} (stops p) a = same_pool s _ refl refl refl
  Step-IsCalm {s} (drained_last p e) a = same_pool s _ refl refl refl
  Step-IsCalm {s} (closes_loop accepted p) a =
      after_run-IsCalm s _ (after_commit-IsCalm false accepted _ s)
  Step-IsCalm {s} (takes i lt e) a = record {
    busy = take-Busy i s.pool e;
    noted = λ id h. h;
    finished = refl;
  }
  Step-IsCalm (finishes i m success lt e) a = absurd a
  Step-IsCalm (stores c) a = absurd a
  Step-IsCalm {s} (closes i lt e) a = record {
    busy = unfold close in put-Busy _ _ s.pool e;
    noted = λ id h. h;
    finished = refl;
  }
