-- ===== src/System/Committed.antt =====
-- The commits of the loop of event_processor/kafka_consumer.py, over its whole run: what the last
-- commit of the `finally` block leaves requested.
use mathlib.Core.Path.{subst}
use event_pipeline_extension.Prelude.{
  ℕ, ◌∙◌, ◌≡◌, ◌≢◌, refl, sym, ap, Bool, true, false, none, some, inl, inr, [], arith, All, All-map,
  All-IsIn, IsIn, Option, IsIn-append, IsIn-append_right, nat_eq, string_eq, pair_eq, if◌then◌else◌,
}
use event_pipeline_extension.Prelude.Result.{ok}
use event_pipeline_extension.Dict.{get, map_values}
use event_pipeline_extension.Dict.Laws.{IsUnique}
use event_pipeline_extension.EventId.{Codec}
use event_pipeline_extension.Store.{EventStore}
use event_pipeline_extension.Watermark.{next_to_commit, snapshot}
use event_pipeline_extension.Watermark.History.{
  replay, start, done, Matches, next_to_commit-frontier,
}
use event_pipeline_extension.Watermark.Snapshot.{replay-IsUnique}
use event_pipeline_extension.Consumer.{
  TopicPartition, Message, Completion, Consumer, is_noted, commit, dispatch, drain_one,
}
use event_pipeline_extension.Consumer.Commit.{collect-IsNoted, offsets_of-request_of}
use event_pipeline_extension.System.{
  Phase, System, Step, starting, polling, closed, first_offset, after_commit, after_run, subscribes,
  fails_to_start, stores, dispatches, raises, poll_raises, drained_last, idles, submits, drains,
  drained, waits, commits, stops, closes_loop, takes, finishes, closes, Reach, begun, later,
}
use event_pipeline_extension.System.Invariant.{Inv}
use event_pipeline_extension.System.Keeps.{Reach-Inv}
use event_pipeline_extension.Consumer.Requested.{
  collect_requested, next_to_commit-IsIn, snapshot-IsUnique,
}

-- What the threads keep: whatever is noted as committed was requested; before the subscription no
-- partition is known; once the consumer thread has returned, each item of the snapshot was requested.
record IsNotedOnly (s : System) : Type 0 where
  requested :
      (tp : TopicPartition) (n : ℕ)
      → is_noted (get tp s.consumer.last_committed) n ≡ true
      → IsIn (tp, n) s.requested
  unknown : s.phase ≡ starting → s.consumer.watermark ≡ []
  ended : s.phase ≡ closed → All (λ item. IsIn item s.requested) (snapshot s.consumer.watermark)

-- A commit, of a watermark without a second entry of a partition.
after_commit-requested :
    (asynchronous accepted : Bool) (phase : Phase) (s : System)
    → IsNotedOnly s
    → (tp : TopicPartition) (n : ℕ)
    → is_noted (get tp (after_commit asynchronous accepted phase s).consumer.last_committed) n
      ≡ true
    → IsIn (tp, n) (after_commit asynchronous accepted phase s).requested
unfolding after_commit commit
after_commit-requested asynchronous accepted phase s v tp n h =
    rw offsets_of-request_of
      (elim (collect_requested (snapshot s.consumer.watermark) s.consumer.last_committed tp n h) [
        | inl old ↦ IsIn-append_right (tp, n) _ s.requested (v.requested tp n old)
        | inr asked ↦ IsIn-append (tp, n) _ s.requested asked
      ])

after_commit-all :
    (asynchronous accepted : Bool) (phase : Phase) (s : System)
    → IsNotedOnly s
    → IsUnique s.consumer.watermark
    → let t = after_commit asynchronous accepted phase s in
      All (λ item. IsIn item t.requested) (snapshot t.consumer.watermark)
unfolding after_commit commit
after_commit-all asynchronous accepted phase s v u =
    All-map _ _ (λ item. after_commit-requested asynchronous accepted phase s v item.0 item.1)
      (snapshot s.consumer.watermark)
      (collect-IsNoted (snapshot s.consumer.watermark) s.consumer.last_committed
        (snapshot-IsUnique s.consumer.watermark u))

phase-after_commit :
    (asynchronous accepted : Bool) (phase : Phase) (s : System)
    → (after_commit asynchronous accepted phase s).phase ≡ phase
unfolding after_commit
phase-after_commit asynchronous accepted phase s = refl

polling-starting : polling ≢ starting
polling-starting e = cc

closed-starting : closed ≢ starting
closed-starting e = cc

watermark-IsUnique : (s : System) → Inv s → IsUnique s.consumer.watermark
watermark-IsUnique s i =
    let v = i.explained in subst IsUnique (sym v.replayed) (replay-IsUnique v.calls)

after_run-IsNotedOnly : (s : System) → IsNotedOnly s → IsNotedOnly (after_run s)
unfolding after_run
after_run-IsNotedOnly s v =
    elim s.crashed
      as (λ b.
        IsNotedOnly
          (if b then record s { consumer = record s.consumer { exit_code = 1 } } else s)) [
            | true ↦ record { requested = v.requested; unknown = v.unknown; ended = v.ended }
            | false ↦ v
          ]

-- The consumer thread goes on without a commit.
advance-IsNotedOnly :
    (s t : System)
    → IsNotedOnly s
    → t.consumer.last_committed ≡ s.consumer.last_committed
    → t.requested ≡ s.requested
    → t.phase ≢ starting
    → t.phase ≢ closed
    → IsNotedOnly t
advance-IsNotedOnly s t v e r begins ends = record {
  requested = λ tp n h.
      subst (IsIn (tp, n)) (sym r)
        (v.requested tp n (subst (λ l. is_noted (get tp l) n ≡ true) e h));
  unknown = λ p. absurd (begins p);
  ended = λ p. absurd (ends p);
}

-- Another thread goes on.
aside-IsNotedOnly :
    (s t : System)
    → IsNotedOnly s
    → t.consumer ≡ s.consumer
    → t.requested ≡ s.requested
    → t.phase ≡ s.phase
    → IsNotedOnly t
aside-IsNotedOnly s t v c r p = record {
  requested = λ tp n h.
      subst (IsIn (tp, n)) (sym r)
        (v.requested tp n (subst (λ c. is_noted (get tp c.last_committed) n ≡ true) c h));
  unknown = λ q. ap (λ c. c.watermark) c ∙ v.unknown (sym p ∙ q);
  ended = λ q.
      subst (λ rs. All (λ item. IsIn item rs) (snapshot t.consumer.watermark)) (sym r)
        (subst (λ (x : Consumer). All (λ item. IsIn item s.requested) (snapshot x.watermark))
          (sym c) (v.ended (sym p ∙ q)));
}

last_committed-drain_one :
    (d : Completion) (c : Consumer) → (drain_one d c).last_committed ≡ c.last_committed
unfolding drain_one
last_committed-drain_one d c = ground arith

Matches-some :
    (first : ℕ) (d : ℕ → Bool) (f next : Option ℕ)
    → f ≡ some first
    → Matches f d next
    → (o : ℕ) × (next ≡ some o)
Matches-some first d (some f) (some o) e a = (o, refl)
Matches-some first d (some f) none e a = absurd a
Matches-some first d none next e a = cc

-- The watermark knows each partition of which a message was dispatched.
next_to_commit-dispatched :
    (tp : TopicPartition) (first : ℕ) (s : System)
    → Inv s
    → first_offset tp s.polled ≡ some first
    → (o : ℕ) × (next_to_commit tp s.consumer.watermark ≡ some o)
next_to_commit-dispatched tp first s i h =
    let v = i.explained in
    let (o, next) =
      Matches-some first (done tp v.calls) (start tp v.calls) (next_to_commit tp (replay v.calls))
        (v.starts tp ∙ h) (next_to_commit-frontier tp v.calls) in
    (o, ap (next_to_commit tp) v.replayed ∙ next)

module _ (codec : Codec) where
  last_committed-dispatch :
      (m : Message) (s : EventStore) (c : Consumer) {s' : EventStore} {c' : Consumer}
      → dispatch codec m s c ≡ ok (s', c')
      → c'.last_committed ≡ c.last_committed
  unfolding dispatch
  last_committed-dispatch m s c h = ground arith

  Step-IsNotedOnly : {s t : System} → Step codec s t → Inv s → IsNotedOnly s → IsNotedOnly t
  Step-IsNotedOnly {s} {t} (subscribes p) i v =
      advance-IsNotedOnly s t v refl refl (λ e. cc) (λ e. cc)
  Step-IsNotedOnly {s} (fails_to_start p) i v = after_run-IsNotedOnly _ (record {
    requested = v.requested;
    unknown = λ e. cc;
    ended = λ e.
        subst (λ w. All (λ item. IsIn item s.requested) (snapshot w)) (sym (v.unknown p))
          (unfold snapshot map_values in tt);
  })
  Step-IsNotedOnly {s} {t} (stores c) i v = aside-IsNotedOnly s t v refl refl refl
  Step-IsNotedOnly {s} {t} (dispatches m p e) i v =
      advance-IsNotedOnly s t v (last_committed-dispatch m s.store s.consumer e) refl (λ e. cc)
        (λ e. cc)
  Step-IsNotedOnly {s} {t} (raises m ex p e) i v =
      advance-IsNotedOnly s t v refl refl (λ e. cc) (λ e. cc)
  Step-IsNotedOnly {s} {t} (poll_raises p) i v =
      advance-IsNotedOnly s t v refl refl (λ e. cc) (λ e. cc)
  Step-IsNotedOnly {s} {t} (idles p) i v = advance-IsNotedOnly s t v refl refl (λ e. cc) (λ e. cc)
  Step-IsNotedOnly {s} {t} (submits m p e) i v =
      advance-IsNotedOnly s t v refl refl (λ e. cc) (λ e. cc)
  Step-IsNotedOnly {s} {t} (drains d rest (inl p) e) i v =
      advance-IsNotedOnly s t v (last_committed-drain_one d s.consumer) refl (λ e. cc) (λ e. cc)
  Step-IsNotedOnly {s} {t} (drains d rest (inr p) e) i v =
      advance-IsNotedOnly s t v (last_committed-drain_one d s.consumer) refl (λ e. cc) (λ e. cc)
  Step-IsNotedOnly {s} {t} (drained p e) i v =
      advance-IsNotedOnly s t v refl refl (λ e. cc) (λ e. cc)
  Step-IsNotedOnly {s} {t} (waits p) i v = advance-IsNotedOnly s t v refl refl (λ e. cc) (λ e. cc)
  Step-IsNotedOnly {s} (commits accepted p) i v = record {
    requested = after_commit-requested true accepted polling s v;
    unknown = λ e. absurd (polling-starting (sym (phase-after_commit true accepted polling s) ∙ e));
    ended = λ e. after_commit-all true accepted polling s v (watermark-IsUnique s i);
  }
  Step-IsNotedOnly {s} {t} (stops p) i v = advance-IsNotedOnly s t v refl refl (λ e. cc) (λ e. cc)
  Step-IsNotedOnly {s} {t} (drained_last p e) i v =
      advance-IsNotedOnly s t v refl refl (λ e. cc) (λ e. cc)
  Step-IsNotedOnly {s} (closes_loop accepted p) i v = after_run-IsNotedOnly _ (record {
    requested = after_commit-requested false accepted closed s v;
    unknown = λ e. absurd (closed-starting (sym (phase-after_commit false accepted closed s) ∙ e));
    ended = λ e. after_commit-all false accepted closed s v (watermark-IsUnique s i);
  })
  Step-IsNotedOnly {s} {t} (takes j lt e) i v = aside-IsNotedOnly s t v refl refl refl
  Step-IsNotedOnly {s} {t} (finishes j m success lt e) i v = aside-IsNotedOnly s t v refl refl refl
  Step-IsNotedOnly {s} {t} (closes j lt e) i v = aside-IsNotedOnly s t v refl refl refl

  Reach-IsNotedOnly : {n size : ℕ} {s : System} → Reach codec n size s → IsNotedOnly s
  Reach-IsNotedOnly (begun a b) = record {
    requested = λ tp n h. unfold get in cc;
    unknown = λ e. refl;
    ended = λ e. cc;
  }
  Reach-IsNotedOnly (later r st) = Step-IsNotedOnly st (Reach-Inv codec r) (Reach-IsNotedOnly r)

  -- Once the consumer thread has returned, in any reachable state, whatever ended its loop and whatever
  -- the broker answered to any commit, each partition of which a message was dispatched has an offset
  -- to commit in the watermark, and this offset was requested in a commit.
  pub returned_requested :
      {n size : ℕ} {s : System} (tp : TopicPartition) (first : ℕ)
      → Reach codec n size s
      → s.phase ≡ closed
      → first_offset tp s.polled ≡ some first
      → (o : ℕ) × (next_to_commit tp s.consumer.watermark ≡ some o) × IsIn (tp, o) s.requested
  returned_requested {s} tp first r p h =
      let (o, next) = next_to_commit-dispatched tp first s (Reach-Inv codec r) h in
      (
        o,
        next,
        All-IsIn (λ item. IsIn item s.requested) (tp, o) (snapshot s.consumer.watermark)
            ((Reach-IsNotedOnly r).ended p) (next_to_commit-IsIn tp o s.consumer.watermark next),
      )
