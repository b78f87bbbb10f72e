-- ===== src/Watermark/Frontier.antt =====
-- The specification of a watermark: the first offset, from the start on, that is not completed.
use event_pipeline_extension.Prelude.{
  ℕ, ◌≤◌, ◌<◌, ◌≡◌, Bool, true, false, arith, Bool-cases, inl, inr,
}
use event_pipeline_extension.Watermark.{PartitionState}
use event_pipeline_extension.Watermark.Loop.{Tracks, IsSettled}

pub record IsFrontier (first : ℕ) (done : ℕ → Bool) (n : ℕ) : Type 0 where
  pub start : first ≤ n
  pub below : (o : ℕ) → first ≤ o → o < n → done o ≡ true
  pub stops : done n ≡ false

-- There is one frontier at most.
pub IsFrontier-unique :
    {first : ℕ} {done done' : ℕ → Bool} (m n : ℕ)
    → ((o : ℕ) → done o ≡ done' o)
    → IsFrontier first done m
    → IsFrontier first done' n
    → m ≡ n
IsFrontier-unique m n same f g = ground (arith, same m, same n, f.below n, g.below m)

pub Tracks-IsFrontier :
    {first : ℕ} {done : ℕ → Bool} (s : PartitionState)
    → Tracks first done s
    → IsSettled s
    → IsFrontier first done s.next_to_commit
Tracks-IsFrontier {done} s t settled = record {
  start = t.start;
  below = t.below;
  stops = elim (Bool-cases (done s.next_to_commit)) [
    | inl completed ↦ ground (arith, t.all s.next_to_commit)
    | inr open_ ↦ open_
  ];
}
