-- ===== src/Watermark.antt =====
-- event_processor/watermark.py: the next offset to commit of each partition, while workers complete
-- offsets in any order. The keys are of any type with an equality.
pub mod Loop
pub mod Frontier
pub mod History
pub mod Snapshot
mod Tests
use event_pipeline_extension.Prelude.{
  ℕ, zero, suc, ◌+◌, Bool, true, false, Option, none, some, List, [], Eq, length, ltb,
  if◌then◌else◌,
}
use event_pipeline_extension.Dict.{Dict, get, put, map_values}
use event_pipeline_extension.IntSet.{contains, add, remove}

pub record PartitionState : Type 0 where
  pub next_to_commit : ℕ
  pub pending_completed : List ℕ

abbrev pub OffsetWatermark : Type 0 → Type 0
OffsetWatermark K = Dict K PartitionState

abbrev pub fresh : ℕ → PartitionState
fresh offset = record { next_to_commit = offset; pending_completed = [] }

-- The `while` loop of `complete`, with fuel.
unfoldable pub advance : ℕ → PartitionState → PartitionState
advance zero s = s
advance (suc fuel) s = elim (contains s.next_to_commit s.pending_completed) [
  | true ↦ advance fuel (record s {
    next_to_commit = s.next_to_commit + 1;
    pending_completed = remove s.next_to_commit s.pending_completed;
  })
  | false ↦ s
]

-- What `complete` does to the state of its partition: each round of the loop takes an element out
-- of the set, so that its size is fuel enough.
unfoldable pub complete_partition : ℕ → PartitionState → PartitionState
complete_partition offset s =
    if ltb offset s.next_to_commit
    then s
    else let done = add offset s.pending_completed in
      advance (length done) (record s { pending_completed = done })

module _ {K : Type 0} ⦃e : Eq K⦄ where
  abbrev pub init : OffsetWatermark K
  init = []

  unfoldable pub observe : K → ℕ → OffsetWatermark K → OffsetWatermark K
  observe tp offset w = elim (get tp w) [ none ↦ put tp (fresh offset) w | some _ ↦ w ]

  unfoldable pub complete : K → ℕ → OffsetWatermark K → OffsetWatermark K
  complete tp offset w = elim (get tp w) [
    | none ↦ put tp (fresh (offset + 1)) w
    | some s ↦ put tp (complete_partition offset s) w
  ]

  unfoldable pub next_to_commit : K → OffsetWatermark K → Option ℕ
  next_to_commit tp w = elim (get tp w) [ none ↦ none | some s ↦ some s.next_to_commit ]

  unfoldable pub snapshot : OffsetWatermark K → Dict K ℕ
  snapshot w = map_values (λ s. s.next_to_commit) w
