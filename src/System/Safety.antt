-- ===== src/System/Safety.antt =====
-- What the threads together guarantee, and two ways in which the loop ends short of its aim.
use mathlib.Core.Path.{subst}
use event_pipeline_extension.Store.{EventStore}
use event_pipeline_extension.Prelude.{
  sym, ◌∙◌, ℕ, ◌≡◌, refl, Bool, true, false, none, [], All, nat_eq, string_eq, pair_eq,
}
use event_pipeline_extension.Prelude.Result.{raise}
use event_pipeline_extension.Dict.Laws.{IsUnique}
use event_pipeline_extension.Errors.{attribute_error}
use event_pipeline_extension.EventId.{Codec, peek_event_id}
use event_pipeline_extension.Consumer.{Message, Consumer, dispatch, commit}
use event_pipeline_extension.Consumer.Commit.{
  commit_again, exit_code-commit-none, exit_code-commit_asynchronous,
}
use event_pipeline_extension.Watermark.Snapshot.{replay-IsUnique}
use event_pipeline_extension.System.{
  System, Step, polling, stopping, finishing, closed, raises, drained_last, closes_loop, Reach,
  after_commit, after_run,
}
use event_pipeline_extension.System.Invariant.{IsSafe}
use event_pipeline_extension.System.Keeps.{Reach-Inv}

module _ (codec : Codec) where
  dispatch-null :
      (m : Message) (s : EventStore) (c : Consumer)
      → m.value ≡ none
      → dispatch codec m s c ≡ raise attribute_error
  unfolding dispatch peek_event_id
  dispatch-null m s c h = rw h

  -- At least once: in every state that the threads can get into, whatever the interleaving, the
  -- failures and the broker's answers, each offset that some commit asked for has, from the first
  -- dispatched offset of its partition on, only offsets below it whose work has returned.
  pub at_least_once :
      {n size : ℕ} {s : System}
      → Reach codec n size s
      → All (IsSafe s.polled s.finished) s.requested
  at_least_once r = (Reach-Inv codec r).safe

  -- After an asynchronous commit that the broker refused, in any reachable state of a loop that has
  -- not crashed, the synchronous commit of a stop with nothing left to drain requests no offset,
  -- whether the broker would accept it or not, and the exit code is what it was.
  pub refused_commit_forgotten :
      {n size : ℕ} {s : System} (accepted : Bool)
      → Reach codec n size s
      → s.crashed ≡ false
      → let refused = after_commit true false polling s in
        let end_state =
          after_run (after_commit false accepted closed (record refused { phase = finishing })) in
        (end_state.requested ≡ refused.requested)
        × (end_state.consumer.exit_code ≡ s.consumer.exit_code)
  unfolding after_commit after_run
  refused_commit_forgotten {s} accepted r h =
      let v = (Reach-Inv codec r).explained in
      let c = (commit true false s.consumer).0 in
      let unique : IsUnique s.consumer.watermark =
        subst IsUnique (sym v.replayed) (replay-IsUnique v.calls) in
      let nothing : (commit false accepted c).1 ≡ none =
        commit_again true false false accepted s.consumer unique in
      (
        rw (h, nothing),
        rw h (
            exit_code-commit-none false accepted c nothing
            ∙ exit_code-commit_asynchronous false s.consumer),
      )

  -- A message without a value ends the consumer thread: from any state in which the loop polls and the
  -- queue of completions is empty, such a message leads by three steps of that thread to the return
  -- of `run` with exit code 1, and the message is not among those dispatched.
  pub null_value_ends_loop :
      {s : System} (m : Message) (accepted : Bool)
      → s.phase ≡ polling
      → s.completions ≡ []
      → m.value ≡ none
      → (t t' u : System) × Step codec s t
        × Step codec t t'
        × Step codec t' u
        × (u.phase ≡ closed)
        × (u.consumer.exit_code ≡ 1)
        × (u.polled ≡ s.polled)
  null_value_ends_loop {s} m accepted p q h =
      let t = record s { phase = stopping; crashed = true } in
      (
        t,
        record t { phase = finishing },
        after_run (after_commit false accepted closed (record t { phase = finishing })),
        raises m attribute_error p (dispatch-null m s.store s.consumer h),
        drained_last refl q,
        closes_loop accepted refl,
        unfold after_run after_commit in refl,
        unfold after_run after_commit in refl,
        unfold after_run after_commit in refl,
      )
