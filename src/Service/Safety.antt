-- ===== src/Service/Safety.antt =====
-- No event is lost: what the committed offsets, the finished messages and the status endpoint say.
use event_pipeline_extension.Prelude.{
  ℕ, ◌≤◌, ◌<◌, String, ◌≡◌, refl, sym, ap, IsIn, All-IsIn, Bool, true, ◌&&◌, List, [], ◌∷◌, arith,
  All, All-map, some, ◌==◌, nat_eq, string_eq, pair_eq, eq_law, nat_beq, nat_beq_iff, Bool-cases,
  inl, inr,
}
use event_pipeline_extension.EventId.{Codec}
use event_pipeline_extension.Processor.{Minio, XmlCodec, IsLawful, IsAtomic}
use event_pipeline_extension.Consumer.{TopicPartition, Message}
use event_pipeline_extension.System.{succeeded, first_offset}
use event_pipeline_extension.System.Invariant.{IsSafe}
use event_pipeline_extension.System.Safety.{at_least_once}
use event_pipeline_extension.Service.{Service, Reach}
use event_pipeline_extension.Service.Invariant.{IsKept, KeptIf}
use event_pipeline_extension.Service.Logs.{Reach-System, finished_read}
use event_pipeline_extension.Service.Kept.{Reach-Inv}

module _ (codec : Codec) (xml : XmlCodec) (minio : Minio) (bucket : String) where
  -- If the object store is lawful and its puts are atomic: in every state that the threads can get
  -- into, each message whose work has returned has an object in the object store and a record in the
  -- event store that says that it is processed, under one id, under which `process` makes the body of
  -- the message, and which is the id that the consumer found in the message if it found one.
  pub finished_kept :
      IsLawful minio
      → IsAtomic minio
      → {n size : ℕ} {s : Service minio} → Reach codec xml minio bucket n size s
      → All (KeptIf codec xml minio bucket s.objects s.system.store) s.system.finished
  finished_kept lawful atomic r = (Reach-Inv codec xml minio bucket lawful atomic r).kept

  -- A message of the partition with this offset was read, its work has returned, and it is kept.
  pub record IsCovered (s : Service minio) (tp : TopicPartition) (o : ℕ) : Type 0 where
    pub message : Message
    pub partition : message.tp ≡ tp
    pub offset : message.offset ≡ o
    pub read : IsIn message s.system.polled
    pub returned : IsIn (message, true) s.system.finished
    pub kept : IsKept codec xml minio bucket s.objects s.system.store message

  -- A message of a log whose work has returned, with the partition and the offset.
  record Found (tp : TopicPartition) (o : ℕ) (l : List (Message × Bool)) : Type 0 where
    message : Message
    partition : message.tp ≡ tp
    offset : message.offset ≡ o
    returned : IsIn (message, true) l

  succeeded-Found :
      (tp : TopicPartition) (o : ℕ) (l : List (Message × Bool))
      → succeeded tp o l ≡ true
      → Found tp o l
  unfolding succeeded
  succeeded-Found tp o [] e = cc
  succeeded-Found tp o ((m, success) ∷ older) e =
      elim (Bool-cases (m.tp == tp && nat_beq m.offset o && success)) [
        | inl this ↦
            let right : success ≡ true = ground arith in
            record {
              message = m;
              partition = ground (arith, eq_law m.tp tp);
              offset = ground (arith, nat_beq_iff m.offset o);
              returned = inl (ap (λ b. (m, b)) (sym right));
            }
        | inr other ↦
            let v = succeeded-Found tp o older (rw other at e) in
            record {
              message = v.message;
              partition = v.partition;
              offset = v.offset;
              returned = inr v.returned;
            }
      ]

  Found-IsCovered :
      {n size : ℕ} {s : Service minio} (tp : TopicPartition) (o : ℕ)
      → Reach codec xml minio bucket n size s
      → All (KeptIf codec xml minio bucket s.objects s.system.store) s.system.finished
      → Found tp o s.system.finished
      → IsCovered s tp o
  Found-IsCovered {s} tp o r kept v = record {
    message = v.message;
    partition = v.partition;
    offset = v.offset;
    read =
        All-IsIn (λ f. IsIn f.0 s.system.polled) (v.message, true) s.system.finished
          (finished_read codec xml minio bucket r) v.returned;
    returned = v.returned;
    kept =
        All-IsIn (KeptIf codec xml minio bucket s.objects s.system.store) (v.message, true)
          s.system.finished kept v.returned refl;
  }

  -- From the first dispatched offset of its partition on, every offset below a requested one is
  -- covered.
  pub record IsLossless (s : Service minio) (o : TopicPartition × ℕ) : Type 0 where
    pub first : ℕ
    pub seen : first_offset o.0 s.system.polled ≡ some first
    pub covered : (k : ℕ) → first ≤ k → k < o.1 → IsCovered s o.0 k

  -- No event is lost: if the object store is lawful and its puts are atomic, then in every state that
  -- the threads can get into, for each offset that some commit asked for, every offset below it, from
  -- the first dispatched one of its partition on, has a message that was read, whose work has
  -- returned, whose object is in the object store, under the id under which it is processed, and
  -- whose event is noted as processed under that id.
  pub committed_kept :
      IsLawful minio
      → IsAtomic minio
      → {n size : ℕ} {s : Service minio} → Reach codec xml minio bucket n size s
      → All (IsLossless s) s.system.requested
  committed_kept lawful atomic {s} r =
      All-map (IsSafe s.system.polled s.system.finished) (IsLossless s)
        (λ o safe. record {
          first = safe.first;
          seen = safe.seen;
          covered = λ k p q.
              Found-IsCovered o.0 k r (finished_kept lawful atomic r)
                (succeeded-Found o.0 k s.system.finished (safe.below k p q));
        })
        s.system.requested (at_least_once codec (Reach-System codec xml minio bucket r))
