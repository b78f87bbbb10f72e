-- ===== src/System/Explained.antt =====
-- A watermark that the logs explain: its completions keep it so, and what it offers is safe.
use mathlib.Core.Path.{subst}
use event_pipeline_extension.Prelude.{
  ℕ, ◌≡◌, refl, sym, ◌∙◌, ap, inl, inr, Bool, true, Option, none, some, List, ◌∷◌, arith, All,
  All-map, eq_law, nat_beq_iff, nat_eq, string_eq, pair_eq, Bool-cases,
}
use event_pipeline_extension.Dict.Laws.{IsUnique}
use event_pipeline_extension.Watermark.{OffsetWatermark, snapshot, complete, next_to_commit}
use event_pipeline_extension.Watermark.Frontier.{IsFrontier}
use event_pipeline_extension.Watermark.History.{
  completed, replay, start, done, Matches, next_to_commit-frontier,
}
use event_pipeline_extension.Watermark.Snapshot.{IsNext, snapshot-IsNext, replay-IsUnique}
use event_pipeline_extension.Consumer.{TopicPartition, Message, Completion, Consumer, drain_one}
use event_pipeline_extension.System.{succeeded}
use event_pipeline_extension.System.Invariant.{IsSeen, IsSafe, IsTrue, IsExplained}

Matches-some :
    (f : Option ℕ) (d : ℕ → Bool) (n : ℕ)
    → Matches f d (some n)
    → (first : ℕ) × (f ≡ some first) × IsFrontier first d n
Matches-some none d n m = absurd m
Matches-some (some first) d n m = (first, refl, m)

module _ {polled : List Message} {finished : List (Message × Bool)} where
  IsExplained-complete :
      (w : OffsetWatermark TopicPartition) (tp : TopicPartition) (o : ℕ)
      → IsSeen polled tp
      → succeeded tp o finished ≡ true
      → IsExplained polled finished w
      → IsExplained polled finished (complete tp o w)
  unfolding replay start done
  IsExplained-complete w tp o seen ran h = record {
    calls = completed tp o ∷ h.calls;
    replayed = ap (complete tp o) h.replayed;
    starts = λ tp'. ground (arith, h.starts tp', eq_law tp tp');
    sound = λ tp' o' p. ground (arith, h.sound tp' o', eq_law tp tp', nat_beq_iff o o');
  }

  pub IsExplained-drain_one :
      (d : Completion) (c : Consumer)
      → IsTrue polled finished d
      → IsExplained polled finished c.watermark
      → IsExplained polled finished (drain_one d c).watermark
  unfolding drain_one
  IsExplained-drain_one d c t h = elim (Bool-cases d.success) [
    | inl success ↦
        rw success (IsExplained-complete c.watermark d.tp d.offset t.seen (t.ran success) h)
    | inr failure ↦ rw failure h
  ]

  -- What the watermark offers for commit is safe.
  IsNext-IsSafe :
      (w : OffsetWatermark TopicPartition) (o : TopicPartition × ℕ)
      → IsExplained polled finished w
      → IsNext w o
      → IsSafe polled finished o
  IsNext-IsSafe w o h next =
      let m : Matches (start o.0 h.calls) (done o.0 h.calls) (some o.1) =
        subst (Matches (start o.0 h.calls) (done o.0 h.calls))
          (ap (next_to_commit o.0) (sym h.replayed) ∙ next) (next_to_commit-frontier o.0 h.calls) in
      let (first, starts, frontier) = Matches-some (start o.0 h.calls) (done o.0 h.calls) o.1 m in
      record {
        first = first;
        seen = sym (h.starts o.0) ∙ starts;
        start = frontier.start;
        below = λ k p q. h.sound o.0 k (frontier.below k p q);
      }

  pub snapshot-IsSafe :
      (w : OffsetWatermark TopicPartition)
      → IsExplained polled finished w
      → All (IsSafe polled finished) (snapshot w)
  snapshot-IsSafe w h =
      All-map (IsNext w) (IsSafe polled finished) (λ o. IsNext-IsSafe w o h) (snapshot w)
        (snapshot-IsNext w (subst IsUnique (sym h.replayed) (replay-IsUnique h.calls)))
