-- ===== src/Watermark/Tests.antt =====
-- Runs of the watermark, and the theorems at them.
use event_pipeline_extension.Prelude.{ℕ, ◌≡◌, refl, some, List, [], ◌∷◌, arith, nat_eq}
use event_pipeline_extension.Dict as Dict
use event_pipeline_extension.IntSet as IntSet
use event_pipeline_extension.IntSet.{contains}
use event_pipeline_extension.Watermark.{
  PartitionState, observe, complete, complete_partition, advance, next_to_commit,
}
use event_pipeline_extension.Watermark.Frontier.{IsFrontier}
use event_pipeline_extension.Watermark.History.{
  Call, saw, completed, replay, start, done, next_to_commit-frontier, next_to_commit_confluent,
}

program : Unit {0}
unfolding Dict.get Dict.put IntSet.contains IntSet.add IntSet.remove observe complete
    complete_partition advance next_to_commit replay start done
program = tt

-- 3, 4 and 5 were read; 5 and then 3 were completed.
abbrev calls : List (Call ℕ)
calls = completed 0 3 ∷ completed 0 5 ∷ saw 0 5 ∷ saw 0 4 ∷ saw 0 3 ∷ []

abbrev calls' : List (Call ℕ)
calls' = completed 0 5 ∷ completed 0 3 ∷ saw 0 5 ∷ saw 0 4 ∷ saw 0 3 ∷ []

stalled : next_to_commit 0 (replay calls) ≡ some 4
unfolding program
stalled = refl

caught_up : next_to_commit 0 (replay (completed 0 4 ∷ calls)) ≡ some 6
unfolding program
caught_up = refl

next_to_commit-frontier_example : IsFrontier 3 (done 0 calls) 4
unfolding program
next_to_commit-frontier_example = next_to_commit-frontier 0 calls

done_same : (o : ℕ) → done 0 calls o ≡ done 0 calls' o
unfolding done
done_same o = ground arith

next_to_commit_confluent_example :
    next_to_commit 0 (replay calls) ≡ next_to_commit 0 (replay calls')
unfolding program
next_to_commit_confluent_example = next_to_commit_confluent 0 calls calls' refl done_same

abbrev two_done : PartitionState
two_done = record { next_to_commit = 3; pending_completed = 4 ∷ 3 ∷ [] }
