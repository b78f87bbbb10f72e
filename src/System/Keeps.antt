-- ===== src/System/Keeps.antt =====
-- Every step of any thread keeps the invariant.
use mathlib.Core.Path.{subst}
use event_pipeline_extension.Prelude.{
  ℕ, ◌≡◌, refl, ◌≢◌, sym, Bool, true, false, List, [], ◌∷◌, ◌++◌, arith, All, All-append, All-map,
  nat_eq, string_eq, pair_eq, if◌then◌else◌,
}
use event_pipeline_extension.Prelude.Result.{ok}
use event_pipeline_extension.EventId.{Codec}
use event_pipeline_extension.Store.{EventStore}
use event_pipeline_extension.Pool.{WorkerPool}
use event_pipeline_extension.Pool.Order.{unfinished}
use event_pipeline_extension.Watermark.{observe}
use event_pipeline_extension.Watermark.History.{replay, start, done}
use event_pipeline_extension.Consumer.{
  TopicPartition, Message, Completion, Consumer, dispatch, completion_of, drain_one, commit,
}
use event_pipeline_extension.Consumer.Commit.{commit_sound}
use event_pipeline_extension.System.{
  Phase, System, Step, polling, draining, committing, stopping, finishing, closed, submitting,
  first_offset, after_commit, after_run, subscribes, fails_to_start, stores, dispatches, raises,
  poll_raises, drained_last, idles, submits, drains, drained, waits, commits, stops, closes_loop,
  takes, finishes, closes, Reach, begun, later,
}
use event_pipeline_extension.System.Held.{
  Holds, submit-Holds, close-Holds, take-Holds, finish-Holds, start-Holds,
}
use event_pipeline_extension.System.Invariant.{
  IsSeen, IsSafe, IsTrue, IsExplained, Inv, IsSeen-here, IsSeen-keep, IsSafe-keep, IsTrue-keep,
  IsExplained-observe, succeeded-here, IsSafe-finish, IsTrue-finish, IsExplained-finish,
}
use event_pipeline_extension.System.Explained.{IsExplained-drain_one, snapshot-IsSafe}

watermark-commit :
    (asynchronous accepted : Bool) (c : Consumer)
    → (commit asynchronous accepted c).0.watermark ≡ c.watermark
unfolding commit
watermark-commit asynchronous accepted c = refl

-- A commit asks for safe offsets only.
after_commit-Inv :
    (asynchronous accepted : Bool) (phase : Phase) (s : System)
    → ((m : Message) → phase ≢ submitting m)
    → Inv s
    → Inv (after_commit asynchronous accepted phase s)
unfolding after_commit
after_commit-Inv asynchronous accepted phase s quiet v = record {
  explained =
      subst (IsExplained s.polled s.finished)
        (sym (watermark-commit asynchronous accepted s.consumer)) v.explained;
  queued = v.queued;
  held = v.held;
  sending = λ m e. absurd (quiet m e);
  safe =
      All-append (IsSafe s.polled s.finished) _ s.requested
        (commit_sound asynchronous accepted s.consumer _
          (snapshot-IsSafe s.consumer.watermark v.explained))
        v.safe;
}

after_run-Inv : (s : System) → Inv s → Inv (after_run s)
unfolding after_run
after_run-Inv s v =
    elim s.crashed
      as (λ b. Inv (if b then record s { consumer = record s.consumer { exit_code = 1 } } else s)) [
        | true ↦ record {
          explained = v.explained;
          queued = v.queued;
          held = v.held;
          sending = v.sending;
          safe = v.safe;
        }
        | false ↦ v
      ]

-- The consumer thread goes on without a change of the shared state.
rephase-Inv :
    (phase : Phase) (crashed : Bool) (s : System)
    → ((m : Message) → phase ≢ submitting m)
    → Inv s
    → Inv (record s { phase = phase; crashed = crashed })
rephase-Inv phase crashed s quiet v = record {
  explained = v.explained;
  queued = v.queued;
  held = v.held;
  sending = λ m e. absurd (quiet m e);
  safe = v.safe;
}

repool-Inv :
    (pool : WorkerPool Message) (s : System)
    → Holds (λ m. IsSeen s.polled m.tp) pool
    → Inv s
    → Inv (record s { pool = pool })
repool-Inv pool s h v = record {
  explained = v.explained;
  queued = v.queued;
  held = h;
  sending = v.sending;
  safe = v.safe;
}

module _ (codec : Codec) where
  -- A dispatch that does not raise observes the message's offset.
  watermark-dispatch :
      (m : Message) (s : EventStore) (c : Consumer) {s' : EventStore} {c' : Consumer}
      → dispatch codec m s c ≡ ok (s', c')
      → c'.watermark ≡ observe m.tp m.offset c.watermark
  unfolding dispatch
  watermark-dispatch m s c h = ground arith

  dispatch-Inv :
      (m : Message) (s : System) {store : EventStore} {c : Consumer}
      → dispatch codec m s.store s.consumer ≡ ok (store, c)
      → Inv s
      → Inv (record s { phase = submitting m; store = store; consumer = c; polled = m ∷ s.polled })
  dispatch-Inv m s {c} h v = record {
    explained =
        subst (IsExplained (m ∷ s.polled) s.finished)
          (sym (watermark-dispatch m s.store s.consumer h))
          (IsExplained-observe m s.polled s.finished s.consumer.watermark v.explained);
    queued = All-map _ _ (IsTrue-keep m s.polled s.finished) s.completions v.queued;
    held = λ i. All-map _ _ (λ m'. IsSeen-keep m s.polled m'.tp) (unfinished s.pool i) (v.held i);
    sending = λ m' e.
        let same : m ≡ m' = cc in
        subst (λ (x : Message). IsSeen (m ∷ s.polled) x.tp) same (IsSeen-here m s.polled);
    safe = All-map _ _ (IsSafe-keep m s.polled s.finished) s.requested v.safe;
  }

  finish-Inv :
      (m : Message) (success : Bool) (pool : WorkerPool Message) (s : System)
      → IsSeen s.polled m.tp × Holds (λ a. IsSeen s.polled a.tp) pool
      → Inv s
      → Inv (record s {
        pool = pool;
        completions = s.completions ++ completion_of m success ∷ [];
        finished = (m, success) ∷ s.finished;
      })
  finish-Inv m success pool s h v = record {
    explained = IsExplained-finish m success s.finished s.polled s.consumer.watermark v.explained;
    queued =
        All-append (IsTrue s.polled ((m, success) ∷ s.finished)) s.completions _
          (All-map _ _ (IsTrue-finish m success s.finished s.polled) s.completions v.queued)
          (record { seen = h.0; ran = succeeded-here m success s.finished }, tt);
    held = h.1;
    sending = v.sending;
    safe = All-map _ _ (IsSafe-finish m success s.finished s.polled) s.requested v.safe;
  }

  drain-Inv :
      (d : Completion) (rest : List Completion) (s : System)
      → s.completions ≡ d ∷ rest
      → Inv s
      → Inv (record s { consumer = drain_one d s.consumer; completions = rest })
  drain-Inv d rest s e v =
      let q = subst (All (IsTrue s.polled s.finished)) e v.queued in
      record {
        explained = IsExplained-drain_one d s.consumer q.0 v.explained;
        queued = q.1;
        held = v.held;
        sending = v.sending;
        safe = v.safe;
      }

  pub Step-Inv : {s t : System} → Step codec s t → Inv s → Inv t
  Step-Inv {s} (subscribes p) v = rephase-Inv polling s.crashed s (λ m. cc) v
  Step-Inv {s} (fails_to_start p) v = after_run-Inv _ (rephase-Inv closed true s (λ m. cc) v)
  Step-Inv {s} (stores c) v = record {
    explained = v.explained;
    queued = v.queued;
    held = v.held;
    sending = v.sending;
    safe = v.safe;
  }
  Step-Inv {s} (dispatches m p e) v = dispatch-Inv m s e v
  Step-Inv {s} (raises m ex p e) v = rephase-Inv stopping true s (λ m. cc) v
  Step-Inv {s} (poll_raises p) v = rephase-Inv stopping true s (λ m. cc) v
  Step-Inv {s} (idles p) v = rephase-Inv draining s.crashed s (λ m. cc) v
  Step-Inv {s} (submits m {pool} p e) v =
      rephase-Inv draining s.crashed (record s { pool = pool }) (λ m. cc)
        (repool-Inv pool s (submit-Holds _ m.key m s.pool e (v.sending m p) v.held) v)
  Step-Inv {s} (drains c rest p e) v = drain-Inv c rest s e v
  Step-Inv {s} (drained p e) v = rephase-Inv committing s.crashed s (λ m. cc) v
  Step-Inv {s} (waits p) v = rephase-Inv polling s.crashed s (λ m. cc) v
  Step-Inv {s} (commits accepted p) v = after_commit-Inv true accepted polling s (λ m. cc) v
  Step-Inv {s} (stops p) v = rephase-Inv stopping s.crashed s (λ m. cc) v
  Step-Inv {s} (drained_last p e) v = rephase-Inv finishing s.crashed s (λ m. cc) v
  Step-Inv {s} (closes_loop accepted p) v =
      after_run-Inv _ (after_commit-Inv false accepted closed s (λ m. cc) v)
  Step-Inv {s} (takes i {pool} lt e) v = repool-Inv pool s (take-Holds _ i s.pool e v.held) v
  Step-Inv {s} (finishes i m success {pool} lt e) v =
      finish-Inv m success pool s (finish-Holds (λ a. IsSeen s.polled a.tp) i m s.pool e v.held) v
  Step-Inv {s} (closes i {pool} lt e) v = repool-Inv pool s (close-Holds _ i s.pool e v.held) v

  done-nil : (tp : TopicPartition) (o : ℕ) → done tp [] o ≢ true
  unfolding done
  done-nil tp o e = cc

  -- The invariant holds in every state that the processor can get into.
  pub Reach-Inv : {n size : ℕ} {s : System} → Reach codec n size s → Inv s
  Reach-Inv {n} {size} (begun {p} a b) = record {
    explained = record {
      calls = [];
      replayed = unfold replay in refl;
      starts = λ tp. unfold start first_offset in refl;
      sound = λ tp o e. absurd (done-nil tp o e);
    };
    queued = tt;
    held = start-Holds _ n size a b;
    sending = λ m e. cc;
    safe = tt;
  }
  Reach-Inv (later r st) = Step-Inv st (Reach-Inv r)
