-- ===== src/System/Invariant.antt =====
-- What holds in every state of the interleaved threads.
use event_pipeline_extension.Prelude.{
  ℕ, ◌≤◌, ◌<◌, ◌≡◌, ap, inl, inr, Bool, true, some, List, ◌∷◌, arith, All, eq_self, nat_eq,
  string_eq, pair_eq, Option-cases,
}
use event_pipeline_extension.Watermark.{OffsetWatermark, observe}
use event_pipeline_extension.Watermark.History.{Call, saw, replay, start, done}
use event_pipeline_extension.Consumer.{TopicPartition, Message, Completion}
use event_pipeline_extension.System.{System, submitting, first_offset, succeeded}
use event_pipeline_extension.System.Held.{Holds}

-- A message of the partition was dispatched.
abbrev pub IsSeen : List Message → TopicPartition → Type 0
IsSeen polled tp = (first : ℕ) × (first_offset tp polled ≡ some first)

-- From the first dispatched offset of the partition on, the work of every offset below `next` has
-- returned.
pub record IsSafe (polled : List Message) (finished : List (Message × Bool))
    (o : TopicPartition × ℕ) : Type 0 where
  pub first : ℕ
  pub seen : first_offset o.0 polled ≡ some first
  pub start : first ≤ o.1
  pub below : (k : ℕ) → first ≤ k → k < o.1 → succeeded o.0 k finished ≡ true

-- A completion in the queue belongs to a dispatched message, and to one whose work has returned if
-- it says so.
pub record IsTrue (polled : List Message) (finished : List (Message × Bool)) (c : Completion)
    : Type 0 where
  pub seen : IsSeen polled c.tp
  pub ran : c.success ≡ true → succeeded c.tp c.offset finished ≡ true

-- The watermark is that of some history of calls which the logs explain.
pub record IsExplained (polled : List Message) (finished : List (Message × Bool))
    (w : OffsetWatermark TopicPartition) : Type 0 where
  pub calls : List (Call TopicPartition)
  pub replayed : w ≡ replay calls
  pub starts : (tp : TopicPartition) → start tp calls ≡ first_offset tp polled
  pub sound :
      (tp : TopicPartition) (o : ℕ) → done tp calls o ≡ true → succeeded tp o finished ≡ true

pub record Inv (s : System) : Type 0 where
  pub explained : IsExplained s.polled s.finished s.consumer.watermark
  pub queued : All (IsTrue s.polled s.finished) s.completions
  pub held : Holds (λ m. IsSeen s.polled m.tp) s.pool
  pub sending : (m : Message) → s.phase ≡ submitting m → IsSeen s.polled m.tp
  pub safe : All (IsSafe s.polled s.finished) s.requested

module _ (m : Message) (polled : List Message) where
  pub IsSeen-here : IsSeen (m ∷ polled) m.tp
  unfolding first_offset
  IsSeen-here = elim (Option-cases (first_offset m.tp polled)) [
    | inl new ↦ (m.offset, ground (arith, eq_self m.tp))
    | inr (first, old) ↦ (first, ground arith)
  ]

  first_offset-keep :
      (tp : TopicPartition) (first : ℕ)
      → first_offset tp polled ≡ some first
      → first_offset tp (m ∷ polled) ≡ some first
  unfolding first_offset
  first_offset-keep tp first h = ground arith

  pub IsSeen-keep : (tp : TopicPartition) → IsSeen polled tp → IsSeen (m ∷ polled) tp
  IsSeen-keep tp h = (h.0, first_offset-keep tp h.0 h.1)

  module _ (finished : List (Message × Bool)) where
    pub IsSafe-keep :
        (o : TopicPartition × ℕ) → IsSafe polled finished o → IsSafe (m ∷ polled) finished o
    IsSafe-keep o h = record {
      first = h.first;
      seen = first_offset-keep o.0 h.first h.seen;
      start = h.start;
      below = h.below;
    }

    pub IsTrue-keep : (c : Completion) → IsTrue polled finished c → IsTrue (m ∷ polled) finished c
    IsTrue-keep c h = record { seen = IsSeen-keep c.tp h.seen; ran = h.ran }

    pub IsExplained-observe :
        (w : OffsetWatermark TopicPartition)
        → IsExplained polled finished w
        → IsExplained (m ∷ polled) finished (observe m.tp m.offset w)
    unfolding replay start first_offset done
    IsExplained-observe w h = record {
      calls = saw m.tp m.offset ∷ h.calls;
      replayed = ap (observe m.tp m.offset) h.replayed;
      starts = λ tp. ground (arith, h.starts tp);
      sound = λ tp o p. h.sound tp o p;
    }

module _ (m : Message) (success : Bool) (finished : List (Message × Bool)) where
  pub succeeded-here : success ≡ true → succeeded m.tp m.offset ((m, success) ∷ finished) ≡ true
  unfolding succeeded
  succeeded-here h = ground (arith, eq_self m.tp)

  succeeded-keep :
      (tp : TopicPartition) (o : ℕ)
      → succeeded tp o finished ≡ true
      → succeeded tp o ((m, success) ∷ finished) ≡ true
  unfolding succeeded
  succeeded-keep tp o h = ground arith

  module _ (polled : List Message) where
    pub IsSafe-finish :
        (o : TopicPartition × ℕ)
        → IsSafe polled finished o
        → IsSafe polled ((m, success) ∷ finished) o
    IsSafe-finish o h = record {
      first = h.first;
      seen = h.seen;
      start = h.start;
      below = λ k p q. succeeded-keep o.0 k (h.below k p q);
    }

    pub IsTrue-finish :
        (c : Completion) → IsTrue polled finished c → IsTrue polled ((m, success) ∷ finished) c
    IsTrue-finish c h = record { seen = h.seen; ran = λ e. succeeded-keep c.tp c.offset (h.ran e) }

    pub IsExplained-finish :
        (w : OffsetWatermark TopicPartition)
        → IsExplained polled finished w
        → IsExplained polled ((m, success) ∷ finished) w
    IsExplained-finish w h = record {
      calls = h.calls;
      replayed = h.replayed;
      starts = h.starts;
      sound = λ tp o p. succeeded-keep tp o (h.sound tp o p);
    }
