-- ===== src/Service/Latest/Messages.antt =====
-- A message in hand is one of those that the consumer dispatched, and its key has led to its worker.
use mathlib.Core.Path.{subst}
use event_pipeline_extension.Prelude.{
  ℕ, ◌≡◌, Bool, true, false, List, [], ◌∷◌, ◌++◌, All, All-append, All-append_right, keep, nat_beq,
  if◌then◌else◌,
}
use event_pipeline_extension.EventId.{Codec}
use event_pipeline_extension.Pool.{working, route}
use event_pipeline_extension.Pool.Order.{unfinished, for_worker, in_hand, items, working-route}
use event_pipeline_extension.Pool.Runs.{Reach-IsValid}
use event_pipeline_extension.Consumer.{Message}
use event_pipeline_extension.System.{
  Phase, System, Step, Reach, submitting, starting, polling, draining, committing, stopping,
  finishing, closed, after_run, after_commit, subscribes, fails_to_start, stores, dispatches,
  raises, poll_raises, idles, submits, drains, drained, waits, commits, stops, drained_last,
  closes_loop, takes, finishes, closes,
}
use event_pipeline_extension.System.Order.{key_of, in_order, submitted, worked, Reach-run}

module _ (P : Message → Type 0) where
  All-keep : (p : Message → Bool) (l : List Message) → All P l → All P (keep p l)
  All-keep p [] h = tt
  All-keep p (m ∷ l) h =
      let rest = All-keep p l h.1 in
      elim (p m) as (λ b. All P (if b then m ∷ keep p l else keep p l)) [
        | true ↦ (h.0, rest)
        | false ↦ rest
      ]

  All-in_order : (l : List Message) → All P l → All P (in_order l)
  All-in_order [] h = tt
  All-in_order (m ∷ l) h = All-append P (in_order l) (m ∷ []) (All-in_order l h.1) (h.0, tt)

  All-submitted : (phase : Phase) (l : List Message) → All P l → All P (submitted phase l)
  All-submitted (submitting m) (m' ∷ l) h = h.1
  All-submitted (submitting m) [] h = h
  All-submitted starting l h = h
  All-submitted polling l h = h
  All-submitted draining l h = h
  All-submitted committing l h = h
  All-submitted stopping l h = h
  All-submitted finishing l h = h
  All-submitted closed l h = h

  pub in_hand-route :
      (codec : Codec) {n size : ℕ} {s : System}
      → Reach codec n size s
      → All P s.polled
      → (j : ℕ) (m : Message) → s.pool.threads j ≡ working m
      → P m × (nat_beq (route n m.key) j ≡ true)
  in_hand-route codec {n} {s} r h j m busy =
      let v = Reach-IsValid key_of (Reach-run codec r) in
      let all = in_order (submitted s.phase s.polled) in
      let mine : All P (for_worker key_of s.pool.num_workers j all) =
        All-keep _ all (All-in_order _ (All-submitted s.phase s.polled h)) in
      let held =
        All-append_right P (for_worker key_of s.pool.num_workers j (in_order (worked s.finished)))
          (unfinished s.pool j) (subst (All P) (v.order j) mine) in
      (
        (subst (λ t. All P (in_hand t ++ items (s.pool.queues j))) busy held).0,
        subst (λ w. nat_beq (route w m.key) j ≡ true) v.workers
            (working-route key_of s.pool all (in_order (worked s.finished)) v.order j m busy),
      )

  after_run-polled : (s : System) → All P (after_run s).polled → All P s.polled
  unfolding after_run
  after_run-polled s =
      elim s.crashed
        as (λ b.
          All P
            (if b then record s { consumer = record s.consumer { exit_code = 1 } } else s).polled
          → All P s.polled) [ true ↦ λ h. h | false ↦ λ h. h ]

  after_commit-polled :
      (asynchronous accepted : Bool) (phase : Phase) (s : System)
      → All P (after_commit asynchronous accepted phase s).polled
      → All P s.polled
  unfolding after_commit
  after_commit-polled asynchronous accepted phase s h = h

  -- What holds of all dispatched messages held of them before.
  pub Step-polled :
      (codec : Codec) {s t : System} → Step codec s t → All P t.polled → All P s.polled
  Step-polled codec (subscribes p) h = h
  Step-polled codec {s} (fails_to_start p) h = after_run-polled _ h
  Step-polled codec (stores c) h = h
  Step-polled codec (dispatches m p e) h = h.1
  Step-polled codec (raises m ex p e) h = h
  Step-polled codec (poll_raises p) h = h
  Step-polled codec (idles p) h = h
  Step-polled codec (submits m p e) h = h
  Step-polled codec (drains c rest p e) h = h
  Step-polled codec (drained p e) h = h
  Step-polled codec (waits p) h = h
  Step-polled codec {s} (commits accepted p) h = after_commit-polled true accepted polling s h
  Step-polled codec (stops p) h = h
  Step-polled codec (drained_last p e) h = h
  Step-polled codec {s} (closes_loop accepted p) h =
      after_commit-polled false accepted closed s (after_run-polled _ h)
  Step-polled codec (takes i lt e) h = h
  Step-polled codec (finishes i m success lt e) h = h
  Step-polled codec (closes i lt e) h = h
