-- ===== src/Watermark/Snapshot.antt =====
-- The snapshot lists each partition once, with its offset to commit.
use event_pipeline_extension.Prelude.{
  ℕ, ◌+◌, ◌≡◌, none, some, List, [], ◌∷◌, arith, Eq, eq_law, eq_self, All, All-map,
}
use event_pipeline_extension.Dict.{get, put, map_values}
use event_pipeline_extension.Dict.Laws.{IsUnique, put-IsUnique}
use event_pipeline_extension.Watermark.{
  PartitionState, OffsetWatermark, fresh, complete_partition, observe, complete, next_to_commit,
  snapshot,
}
use event_pipeline_extension.Watermark.History.{Call, saw, completed, replay}

module _ {K : Type 0} ⦃e : Eq K⦄ where
  observe-IsUnique : (k : K) (o : ℕ) (w : OffsetWatermark K) → IsUnique w → IsUnique (observe k o w)
  unfolding observe
  observe-IsUnique k o w u =
      elim (get k w) as (λ g. IsUnique (elim g [ none ↦ put k (fresh o) w | some _ ↦ w ])) [
        | none ↦ put-IsUnique k (fresh o) w u
        | some s ↦ u
      ]

  complete-IsUnique :
      (k : K) (o : ℕ) (w : OffsetWatermark K) → IsUnique w → IsUnique (complete k o w)
  unfolding complete
  complete-IsUnique k o w u =
      elim (get k w)
        as (λ g.
          IsUnique (elim g [
            | none ↦ put k (fresh (o + 1)) w
            | some s ↦ put k (complete_partition o s) w
          ])) [
            | none ↦ put-IsUnique k (fresh (o + 1)) w u
            | some s ↦ put-IsUnique k (complete_partition o s) w u
          ]

  -- No calls give a partition two entries.
  pub replay-IsUnique : (calls : List (Call K)) → IsUnique (replay calls)
  unfolding replay
  replay-IsUnique [] = tt
  replay-IsUnique (saw k o ∷ calls) = observe-IsUnique k o (replay calls) (replay-IsUnique calls)
  replay-IsUnique (completed k o ∷ calls) =
      complete-IsUnique k o (replay calls) (replay-IsUnique calls)

  -- An item of the snapshot is the offset to commit of its partition.
  abbrev pub IsNext : OffsetWatermark K → K × ℕ → Type 0
  IsNext w o = next_to_commit o.0 w ≡ some o.1

  IsNext-cons :
      (k : K) (s : PartitionState) (w : OffsetWatermark K) (o : K × ℕ)
      → get k w ≡ none
      → IsNext w o
      → IsNext ((k, s) ∷ w) o
  unfolding next_to_commit get
  IsNext-cons k s w o new h = ground (arith, eq_law k o.0)

  pub snapshot-IsNext : (w : OffsetWatermark K) → IsUnique w → All (IsNext w) (snapshot w)
  unfolding snapshot map_values
  snapshot-IsNext [] u = tt
  snapshot-IsNext ((k, s) ∷ w) u = (
    unfold next_to_commit get in ground (arith, eq_self k),
    All-map (IsNext w) (IsNext ((k, s) ∷ w)) (λ o. IsNext-cons k s w o u.0) (snapshot w)
        (snapshot-IsNext w u.1),
  )
