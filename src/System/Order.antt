-- ===== src/System/Order.antt =====
-- The pool inside the system runs as the pool alone does, so that each key is processed in the order
-- of its messages.
use mathlib.Core.Path.{subst, subst₂}
use mathlib.Core.List.{append-nil}
use event_pipeline_extension.Prelude.{
  ℕ, ◌≡◌, refl, sym, ◌∙◌, ap, Bool, true, false, some, List, [], ◌∷◌, ◌++◌, if◌then◌else◌, map,
}
use event_pipeline_extension.EventId.{Codec}
use event_pipeline_extension.Pool.{Key, WorkerPool, submit}
use event_pipeline_extension.Pool.Steps as Steps
use event_pipeline_extension.Pool.Order.{of_key, unfinished}
use event_pipeline_extension.Pool.Runs as Runs
use event_pipeline_extension.Pool.{route}
use event_pipeline_extension.Consumer.{Message}
use event_pipeline_extension.System.{
  Phase, System, Step, starting, polling, draining, committing, stopping, finishing, closed,
  submitting, after_commit, after_run, subscribes, fails_to_start, stores, dispatches, raises,
  poll_raises, drained_last, idles, submits, drains, drained, waits, commits, stops, closes_loop,
  takes, finishes, closes, Reach, begun, later,
}

abbrev pub key_of : Message → Key
key_of m = m.key

-- A log, the earliest entry first.
abbrev pub in_order {ℓ} : {A : Type ℓ} → List A → List A
in_order [] = []
in_order (x ∷ xs) = in_order xs ++ x ∷ []

-- The dispatched messages that are in the pool or have left it: all but the one that the consumer
-- thread is still submitting.
abbrev pub submitted : Phase → List Message → List Message
submitted (submitting m) (m' ∷ older) = older
submitted _ polled = polled

abbrev pub worked : List (Message × Bool) → List Message
worked = map (λ r. r.0)

module _ (codec : Codec) where
  record Follows (n size : ℕ) (s : System) : Type 0 where
    run :
        Runs.Reach key_of n size s.pool
          (in_order (submitted s.phase s.polled))
          (in_order (worked s.finished))
    sending : (m : Message) → s.phase ≡ submitting m → s.polled ≡ m ∷ submitted s.phase s.polled

  module _ {n size : ℕ} where
    -- A step of the pool that neither submits nor finishes.
    silent :
        {p p' : WorkerPool Message} {all done : List Message} {ev : Steps.Event Message}
        → Runs.Reach key_of n size p all done
        → Steps.Step key_of p ev p'
        → Steps.submissions ev ≡ []
        → Steps.completions ev ≡ []
        → Runs.Reach key_of n size p' all done
    silent {p'} {all} {done} r st e f =
        subst₂ (Runs.Reach key_of n size p') (ap (λ l. all ++ l) e ∙ append-nil all)
          (ap (λ l. done ++ l) f ∙ append-nil done) (Runs.later r st)

    -- The run, where the phase of the consumer thread is known.
    run_at :
        {s : System} (phase : Phase)
        → s.phase ≡ phase
        → Follows n size s
        → Runs.Reach key_of n size s.pool
            (in_order (submitted phase s.polled))
            (in_order (worked s.finished))
    run_at {s} phase p v =
        subst
          (λ ph.
            Runs.Reach key_of n size s.pool (in_order (submitted ph s.polled))
              (in_order (worked s.finished)))
          p v.run

    -- The message in `pool.submit` is the latest dispatched one.
    submit-run :
        {s : System} (m : Message) {pool : WorkerPool Message}
        → s.phase ≡ submitting m
        → submit m.key m s.pool ≡ some pool
        → Follows n size s
        → Runs.Reach key_of n size pool (in_order s.polled) (in_order (worked s.finished))
    submit-run {s} m {pool} p e v =
        subst₂ (Runs.Reach key_of n size pool) (ap in_order (sym (v.sending m p)))
          (append-nil (in_order (worked s.finished))) (Runs.later v.run (Steps.submits m e))

    after_commit-Follows :
        (asynchronous accepted : Bool) (phase : Phase) (s : System)
        → Follows n size (record s { phase = phase })
        → Follows n size (after_commit asynchronous accepted phase s)
    unfolding after_commit
    after_commit-Follows asynchronous accepted phase s v = record {
      run = v.run;
      sending = v.sending;
    }

    after_run-Follows : (s : System) → Follows n size s → Follows n size (after_run s)
    unfolding after_run
    after_run-Follows s v =
        elim s.crashed
          as (λ b.
            Follows n size
              (if b then record s { consumer = record s.consumer { exit_code = 1 } } else s)) [
                | true ↦ record { run = v.run; sending = v.sending }
                | false ↦ v
              ]

    Step-Follows : {s t : System} → Step codec s t → Follows n size s → Follows n size t
    Step-Follows (subscribes p) v = record { run = run_at starting p v; sending = λ m'. cc }
    Step-Follows {s} (fails_to_start p) v =
        after_run-Follows _ (record { run = run_at starting p v; sending = λ m'. cc })
    Step-Follows (stores c) v = record { run = v.run; sending = v.sending }
    Step-Follows (dispatches m p e) v = record { run = run_at polling p v; sending = λ m' e'. cc }
    Step-Follows (raises m ex p e) v = record { run = run_at polling p v; sending = λ m'. cc }
    Step-Follows (poll_raises p) v = record { run = run_at polling p v; sending = λ m'. cc }
    Step-Follows (idles p) v = record { run = run_at polling p v; sending = λ m'. cc }
    Step-Follows (submits m p e) v = record { run = submit-run m p e v; sending = λ m'. cc }
    Step-Follows (drains c rest p e) v = record { run = v.run; sending = v.sending }
    Step-Follows (drained p e) v = record { run = run_at draining p v; sending = λ m'. cc }
    Step-Follows (waits p) v = record { run = run_at committing p v; sending = λ m'. cc }
    Step-Follows {s} (commits accepted p) v =
        after_commit-Follows true accepted polling s
          (record { run = run_at committing p v; sending = λ m'. cc })
    Step-Follows (stops p) v = record { run = run_at polling p v; sending = λ m'. cc }
    Step-Follows (drained_last p e) v = record { run = run_at stopping p v; sending = λ m'. cc }
    Step-Follows {s} (closes_loop accepted p) v = after_run-Follows _ (
        after_commit-Follows false accepted closed s
          (record { run = run_at finishing p v; sending = λ m'. cc }))
    Step-Follows (takes i lt e) v = record {
      run = silent v.run (Steps.takes i lt e) refl refl;
      sending = v.sending;
    }
    Step-Follows {s} (finishes i m success {pool} lt e) v = record {
      run =
          subst (λ l. Runs.Reach key_of n size pool l (in_order (m ∷ worked s.finished)))
            (append-nil (in_order (submitted s.phase s.polled)))
            (Runs.later v.run (Steps.finishes i m success lt e));
      sending = v.sending;
    }
    Step-Follows (closes i lt e) v = record {
      run = silent v.run (Steps.closes i lt e) refl refl;
      sending = v.sending;
    }

    Reach-Follows : {s : System} → Reach codec n size s → Follows n size s
    Reach-Follows (begun a b) = record { run = Runs.begun a b; sending = λ m. cc }
    Reach-Follows (later r st) = Step-Follows st (Reach-Follows r)

    -- The pool of every state of the system is the pool of a run of its own, to which the dispatched
    -- messages were submitted in the order of their dispatch.
    pub Reach-run :
        {s : System}
        → Reach codec n size s
        → Runs.Reach key_of n size s.pool
            (in_order (submitted s.phase s.polled))
            (in_order (worked s.finished))
    Reach-run r = (Reach-Follows r).run

    -- Ordering per Kafka key: in every state that the threads can get into, the messages of a key
    -- whose work has ended, then the one in hand and those queued at the key's worker, are those
    -- messages of the key that the consumer has submitted, in the order in which it read them.
    pub per_key_order :
        {s : System}
        → Reach codec n size s
        → (k : Key)
        → of_key key_of k (in_order (submitted s.phase s.polled))
          ≡ of_key key_of k (in_order (worked s.finished))
            ++ of_key key_of k (unfinished s.pool (route n k))
    per_key_order r = Runs.per_key_fifo key_of (Reach-run r)
