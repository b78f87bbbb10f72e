-- ===== src/Watermark/Loop.antt =====
-- The loop of `complete` ends by its test, and what one partition's state says of the offsets.
use event_pipeline_extension.Prelude.{
  ℕ, zero, suc, ◌+◌, ◌≤◌, ◌<◌, ◌≡◌, refl, Bool, true, false, ◌||◌, List, [], ◌∷◌, arith, length,
  ltb, nat_beq, Bool-cases, inl, inr,
}
use event_pipeline_extension.IntSet.{
  contains, add, remove, contains-add, contains-remove, length-remove,
}
use event_pipeline_extension.Watermark.{PartitionState, fresh, advance, complete_partition}

no_members : (s : List ℕ) (o : ℕ) → length s ≤ 0 → contains o s ≡ false
unfolding contains
no_members [] o h = refl
no_members (x ∷ xs) o h = absurd (omega arith)

-- With as much fuel as the set has elements the loop ends because its test fails.
pub advance_ends :
    (fuel : ℕ) (s : PartitionState)
    → length s.pending_completed ≤ fuel
    → contains (advance fuel s).next_to_commit (advance fuel s).pending_completed ≡ false
unfolding advance
advance_ends zero s h = no_members s.pending_completed s.next_to_commit h
advance_ends (suc fuel) s h = ground (
  arith,
  length-remove s.next_to_commit s.pending_completed,
  advance_ends fuel (record s {
    next_to_commit = s.next_to_commit + 1;
    pending_completed = remove s.next_to_commit s.pending_completed;
  }),
)

-- The state of a partition that was first seen at `first`, and of which `done` tells the offsets
-- completed since.
pub record Tracks (first : ℕ) (done : ℕ → Bool) (s : PartitionState) : Type 0 where
  pub start : first ≤ s.next_to_commit
  pub below : (o : ℕ) → first ≤ o → o < s.next_to_commit → done o ≡ true
  pub kept :
      (o : ℕ) → contains o s.pending_completed ≡ true → (s.next_to_commit ≤ o) × (done o ≡ true)
  pub all : (o : ℕ) → s.next_to_commit ≤ o → done o ≡ true → contains o s.pending_completed ≡ true

-- `done`, with one offset more.
abbrev pub or_at : (ℕ → Bool) → ℕ → ℕ → Bool
or_at done offset o = nat_beq offset o || done o

module _ {first : ℕ} {done : ℕ → Bool} where
  advance-Tracks :
      (fuel : ℕ) (s : PartitionState) → Tracks first done s → Tracks first done (advance fuel s)
  unfolding advance
  advance-Tracks zero s t = t
  advance-Tracks (suc fuel) s t =
      elim (Bool-cases (contains s.next_to_commit s.pending_completed)) [
        | inl more ↦
            rw (more, advance)
              (advance-Tracks fuel _ (record {
                start = omega (arith, t.start);
                below = λ o p q. elim (Bool-cases (nat_beq o s.next_to_commit)) [
                  | inl same ↦ ground (arith, t.kept s.next_to_commit more)
                  | inr other ↦ t.below o p (ground arith)
                ];
                kept = λ o p.
                    ground
                      (arith, contains-remove o s.next_to_commit s.pending_completed, t.kept o);
                all = λ o p q.
                    ground (arith, contains-remove o s.next_to_commit s.pending_completed, t.all o);
              }))
        | inr ends ↦ rw (ends, advance) t
      ]

  -- A completed offset that the watermark has not passed goes into the set.
  Tracks-add :
      (offset : ℕ) (s : PartitionState)
      → s.next_to_commit ≤ offset
      → Tracks first done s
      → Tracks first
          (or_at done offset)
          (record s { pending_completed = add offset s.pending_completed })
  Tracks-add offset s le t = record {
    start = t.start;
    below = λ o p q. ground (arith, t.below o p q);
    kept = λ o p. ground (arith, contains-add o offset s.pending_completed, t.kept o);
    all = λ o p q. ground (arith, contains-add o offset s.pending_completed, t.all o p);
  }

  -- One that it has passed changes nothing.
  Tracks-late :
      (offset : ℕ) (s : PartitionState)
      → offset < s.next_to_commit
      → Tracks first done s
      → Tracks first (or_at done offset) s
  Tracks-late offset s lt t = record {
    start = t.start;
    below = λ o p q. ground (arith, t.below o p q);
    kept = λ o p. ground (arith, t.kept o p);
    all = λ o p q. ground (arith, t.all o p);
  }

module _ {first : ℕ} {done : ℕ → Bool} where
  -- A completion is recorded, whether it is late, in order or out of order.
  pub complete_partition-Tracks :
      (offset : ℕ) (s : PartitionState)
      → Tracks first done s
      → Tracks first (or_at done offset) (complete_partition offset s)
  unfolding complete_partition
  complete_partition-Tracks offset s t = elim (Bool-cases (ltb offset s.next_to_commit)) [
    | inl late ↦ rw (late, complete_partition) (Tracks-late offset s (ground arith) t)
    | inr new ↦
        rw (new, complete_partition) (advance-Tracks _ _ (Tracks-add offset s (ground arith) t))
  ]

-- The watermark does not stand on an offset of the set.
abbrev pub IsSettled : PartitionState → Type 0
IsSettled s = contains s.next_to_commit s.pending_completed ≡ false

pub complete_partition-IsSettled :
    (offset : ℕ) (s : PartitionState) → IsSettled s → IsSettled (complete_partition offset s)
unfolding complete_partition
complete_partition-IsSettled offset s h = elim (Bool-cases (ltb offset s.next_to_commit)) [
  | inl late ↦ rw (late, complete_partition) h
  | inr new ↦ rw (new, complete_partition) (advance_ends _ _ (omega arith))
]

-- A partition that has just been seen, no offset of which from `first` on is completed.
pub fresh-Tracks :
    (first : ℕ) (done : ℕ → Bool)
    → ((o : ℕ) → first ≤ o → done o ≡ false)
    → Tracks first done (fresh first)
unfolding contains
fresh-Tracks first done h = record {
  start = omega arith;
  below = λ o p q. absurd (omega arith);
  kept = λ o p. absurd (ground arith);
  all = λ o p q. ground (arith, h o p);
}

pub fresh-IsSettled : (first : ℕ) → IsSettled (fresh first)
unfolding contains
fresh-IsSettled first = refl
