-- ===== src/Service/Restarts.antt =====
-- The processor over several runs, as it is restarted after a stop or a crash: the object store stays,
-- all other state is lost, and Kafka goes on with a partition at the offset that was committed last.
use mathlib.Core.Path.{subst}
use event_pipeline_extension.Prelude.{
  ℕ, String, ◌≤◌, ◌<◌, ◌≡◌, sym, some, arith, Bool, true, List, [], ◌++◌, IsIn, All-IsIn,
  IsIn-append, IsIn-append_right, inl, inr, ltb, Bool-cases,
}
use event_pipeline_extension.Prelude.Result.{ok, raise}
use event_pipeline_extension.EventId.{Codec}
use event_pipeline_extension.Processor.{Minio, XmlCodec, IsLawful, IsAtomic, object_key}
use event_pipeline_extension.Consumer.{TopicPartition, Message}
use event_pipeline_extension.System.{first_offset}
use event_pipeline_extension.Service.{
  Service, Step, threads, rejects, puts, put_raises, notes, returns, raises, replays, Reach, begun,
  later,
}
use event_pipeline_extension.Service.Objects.{IsStored, put-IsStored}
use event_pipeline_extension.Service.Invariant.{IsIdOf, IsMade}
use event_pipeline_extension.Service.Safety.{IsLossless, committed_kept}

module _ (codec : Codec) (xml : XmlCodec) (minio : Minio) (bucket : String) where
  -- The object store at the start of a run.
  unfoldable pub objects_before :
      {n size : ℕ} {s : Service minio} → Reach codec xml minio bucket n size s → minio.State
  objects_before (begun objects a b) = objects
  objects_before (later r st) = objects_before r

  -- Kafka goes on with the partition at the committed offset, at which the next message stands, or
  -- before it.
  abbrev pub Resumes : TopicPartition → ℕ → Service minio → Type 0
  Resumes tp committed s =
      (first : ℕ) → first_offset tp s.system.polled ≡ some first → first ≤ committed

  -- The runs of the processor with a partition whose first message has the offset `start`: the offset
  -- that the broker holds for it, and the object store, after each.
  pub data Runs (n size : ℕ) (tp : TopicPartition) (start : ℕ) : ℕ → minio.State → Type 0 where
    installed : (objects : minio.State) → Runs n size tp start start objects
    -- A run in which the broker accepted this offset last.
    ended :
        {committed : ℕ} {objects : minio.State} {s : Service minio} (offset : ℕ)
        → Runs n size tp start committed objects
        → (r : Reach codec xml minio bucket n size s) → objects_before r ≡ objects
        → Resumes tp committed s
        → IsIn (tp, offset) s.system.requested
        → Runs n size tp start offset s.objects
    -- A run of which the broker accepted nothing.
    crashed :
        {committed : ℕ} {objects : minio.State} {s : Service minio}
        → Runs n size tp start committed objects
        → (r : Reach codec xml minio bucket n size s) → objects_before r ≡ objects
        → Resumes tp committed s
        → Runs n size tp start committed s.objects

  -- The messages read in all the runs, and those whose work has ended.
  unfoldable pub read_by :
      {n size : ℕ} {tp : TopicPartition} {start committed : ℕ} {objects : minio.State}
      → Runs n size tp start committed objects
      → List Message
  read_by (installed objects) = []
  read_by (ended {s} offset runs r same resumes requested) = s.system.polled ++ read_by runs
  read_by (crashed {s} runs r same resumes) = s.system.polled ++ read_by runs

  unfoldable pub ended_by :
      {n size : ℕ} {tp : TopicPartition} {start committed : ℕ} {objects : minio.State}
      → Runs n size tp start committed objects
      → List (Message × Bool)
  ended_by (installed objects) = []
  ended_by (ended {s} offset runs r same resumes requested) = s.system.finished ++ ended_by runs
  ended_by (crashed {s} runs r same resumes) = s.system.finished ++ ended_by runs

  -- Among the messages read, one of the partition with this offset has returned from its work, and
  -- has its object in the object store, under the id under which it is processed.
  pub record HasObject (read : List Message) (finished : List (Message × Bool))
      (objects : minio.State) (tp : TopicPartition) (offset : ℕ) : Type 0 where
    pub message : Message
    pub partition : message.tp ≡ tp
    pub at : message.offset ≡ offset
    pub was_read : IsIn message read
    pub returned : IsIn (message, true) finished
    pub id : String
    pub named : IsIdOf codec xml minio bucket message id
    pub made : IsMade codec xml minio bucket message id
    pub stored : IsStored minio bucket objects id

  module _ (lawful : IsLawful minio) (atomic : IsAtomic minio) where
    Step-IsStored :
        {s t : Service minio} (e : String)
        → Step codec xml minio bucket s t
        → IsStored minio bucket s.objects e
        → IsStored minio bucket t.objects e
    Step-IsStored e (threads st a) h = h
    Step-IsStored e (rejects i m generated ex busy at x) h = h
    Step-IsStored {s} e (puts i m generated event_id body {objects} busy at made x) h =
        put-IsStored minio bucket lawful atomic (ok tt) s.objects objects (object_key event_id) body
          e x h
    Step-IsStored {s} e (put_raises i m generated event_id body ex {objects} busy at made x) h =
        put-IsStored minio bucket lawful atomic (raise ex) s.objects objects (object_key event_id)
          body e x h
    Step-IsStored e (notes i event_id now at) h = h
    Step-IsStored e (returns i m event_id lt x at) h = h
    Step-IsStored e (raises i m lt x at) h = h
    Step-IsStored e (replays event_id) h = h

    Reach-IsStored :
        {n size : ℕ} {s : Service minio} (e : String) (r : Reach codec xml minio bucket n size s)
        → IsStored minio bucket (objects_before r) e
        → IsStored minio bucket s.objects e
    unfolding objects_before
    Reach-IsStored e (begun objects a b) h = h
    Reach-IsStored e (later r st) h = Step-IsStored e st (Reach-IsStored e r h)

    -- What earlier runs have stored is there after the next.
    HasObject-later :
        {n size : ℕ} {s : Service minio} {objects : minio.State} (tp : TopicPartition) (k : ℕ)
        (read : List Message) (finished : List (Message × Bool))
        (r : Reach codec xml minio bucket n size s)
        → objects_before r ≡ objects
        → HasObject read finished objects tp k
        → HasObject (s.system.polled ++ read) (s.system.finished ++ finished) s.objects tp k
    HasObject-later {s} tp k read finished r same h = record {
      message = h.message;
      partition = h.partition;
      at = h.at;
      was_read = IsIn-append_right h.message s.system.polled read h.was_read;
      returned = IsIn-append_right (h.message, true) s.system.finished finished h.returned;
      id = h.id;
      named = h.named;
      made = h.made;
      stored =
          Reach-IsStored h.id r (subst (λ o. IsStored minio bucket o h.id) (sym same) h.stored);
    }

    IsLossless-HasObject :
        (s : Service minio) (tp : TopicPartition) (offset k : ℕ) (read : List Message)
        (finished : List (Message × Bool)) (h : IsLossless codec xml minio bucket s (tp, offset))
        → h.first ≤ k
        → k < offset
        → HasObject (s.system.polled ++ read) (s.system.finished ++ finished) s.objects tp k
    IsLossless-HasObject s tp offset k read finished h p q =
        let v = h.covered k p q in
        record {
          message = v.message;
          partition = v.partition;
          at = v.offset;
          was_read = IsIn-append v.message s.system.polled read v.read;
          returned = IsIn-append (v.message, true) s.system.finished finished v.returned;
          id = v.kept.id;
          named = v.kept.named;
          made = v.kept.made;
          stored = v.kept.stored;
        }

    -- No event is lost over any number of runs, crashes and restarts: if the object store is lawful
    -- and its puts are atomic, every offset of the partition that is below the one that the broker
    -- holds, from the first one on, has a message that was read in one of the runs, whose work has
    -- returned, and whose object is in the object store, under the id under which the message is
    -- processed, which is the one that the consumer finds in it, if it finds one.
    pub restarts_keep :
        {n size : ℕ} {tp : TopicPartition} {start committed : ℕ} {objects : minio.State}
        (runs : Runs n size tp start committed objects) (k : ℕ)
        → start ≤ k
        → k < committed
        → HasObject (read_by runs) (ended_by runs) objects tp k
    unfolding read_by ended_by
    restarts_keep (installed objects) k p q = absurd (omega arith)
    restarts_keep {tp} (ended {committed} {s} offset runs r same resumes requested) k p q =
        let h =
          All-IsIn (IsLossless codec xml minio bucket s) (tp, offset) s.system.requested
            (committed_kept codec xml minio bucket lawful atomic r) requested in
        let before : h.first ≤ committed = resumes h.first h.seen in
        elim (Bool-cases (ltb k h.first)) [
          | inl early ↦
              let below : k < committed = ground arith in
              HasObject-later tp k (read_by runs) (ended_by runs) r same
                (restarts_keep runs k p below)
          | inr late ↦
              IsLossless-HasObject s tp offset k (read_by runs) (ended_by runs) h (ground arith) q
        ]
    restarts_keep {tp} (crashed {committed} {s} runs r same resumes) k p q =
        HasObject-later tp k (read_by runs) (ended_by runs) r same (restarts_keep runs k p q)
