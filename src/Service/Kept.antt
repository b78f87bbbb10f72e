-- ===== src/Service/Kept.antt =====
-- Every message whose work has returned is kept: its object is in the object store, and its event
-- is noted as processed.
use mathlib.Core.Path.{subst}
use event_pipeline_extension.Prelude.{
  ℕ, String, ◌≡◌, sym, inl, inr, Bool, true, false, some, arith, All, nat_beq, nat_beq_iff,
  Bool-cases,
}
use event_pipeline_extension.Prelude.Result.{ok, raise}
use event_pipeline_extension.EventId.{Codec}
use event_pipeline_extension.Store.{EventStore}
use event_pipeline_extension.Store.History.{pend, done, perform}
use event_pipeline_extension.Processor.{Minio, XmlCodec, IsLawful, IsAtomic, object_key}
use event_pipeline_extension.Processor.Laws.{render-peek}
use event_pipeline_extension.Pool.{WorkerPool, Thread, waiting, working, update, finish}
use event_pipeline_extension.Pool.Drain.{finish-eq}
use event_pipeline_extension.Consumer.{Message}
use event_pipeline_extension.Service.{
  Service, Progress, untouched, failed, put, noted, end_work, Step, threads, rejects, puts,
  put_raises, notes, returns, raises, replays, Reach, begun, later,
}
use event_pipeline_extension.Service.Objects.{
  IsNoted, IsStored, put-IsStored, perform-IsNoted, perform_done-IsNoted,
}
use event_pipeline_extension.Service.Calm.{Step-IsCalm}
use event_pipeline_extension.Service.Invariant.{
  IsIdOf, IsMade, KeptIf, Doing, KeptIf-grows, Doing-grows, Inv,
}

module _ (codec : Codec) (xml : XmlCodec) (minio : Minio) (bucket : String) where
  -- One worker gets on, the others stay where they are.
  Doing-at :
      (o : minio.State) (s : EventStore) (t : ℕ → Thread Message) (progress : ℕ → Progress) (i : ℕ)
      (p : Progress)
      → Doing codec xml minio bucket o s (t i) p
      → ((j : ℕ) → Doing codec xml minio bucket o s (t j) (progress j))
      → (j : ℕ) → Doing codec xml minio bucket o s (t j) (update progress i p j)
  Doing-at o s t progress i p new old j = elim (Bool-cases (nat_beq i j)) [
    | inl here ↦
        rw here
          (subst (λ k. Doing codec xml minio bucket o s (t k) p) ((nat_beq_iff i j).0 here) new)
    | inr other ↦ rw other (old j)
  ]

  -- A worker whose work has ended has nothing on its way.
  Doing-ended :
      (o : minio.State) (s : EventStore) (t : ℕ → Thread Message) (progress : ℕ → Progress) (i : ℕ)
      → ((j : ℕ) → Doing codec xml minio bucket o s (t j) (progress j))
      → (j : ℕ)
      → Doing codec xml minio bucket o s (update t i waiting j) (update progress i untouched j)
  Doing-ended o s t progress i old j = elim (Bool-cases (nat_beq i j)) [
    | inl here ↦ rw here tt
    | inr other ↦ rw other (old j)
  ]

  pub finish-message :
      (i : ℕ) (m m' : Message) (p : WorkerPool Message) {p' : WorkerPool Message}
      → finish i p ≡ some (m, p')
      → p.threads i ≡ working m'
      → m' ≡ m
  unfolding finish
  finish-message i m m' p e busy = ground arith

  end_work-Inv :
      (i : ℕ) (m : Message) (success : Bool) (pool : WorkerPool Message) (s : Service minio)
      → finish i s.system.pool ≡ some (m, pool)
      → KeptIf codec xml minio bucket s.objects s.system.store (m, success)
      → Inv codec xml minio bucket s
      → Inv codec xml minio bucket (end_work minio i m success pool s)
  end_work-Inv i m success pool s e new v = record {
    doing = λ j.
        rw (finish-eq i m s.system.pool e)
          (Doing-ended s.objects s.system.store s.system.pool.threads s.progress i v.doing j);
    kept = (new, v.kept);
  }

  progress-Inv :
      (i : ℕ) (p : Progress) (s : Service minio)
      → Doing codec xml minio bucket s.objects s.system.store (s.system.pool.threads i) p
      → Inv codec xml minio bucket s
      → Inv codec xml minio bucket (record s { progress = update s.progress i p })
  progress-Inv i p s new v = record {
    doing = Doing-at s.objects s.system.store s.system.pool.threads s.progress i p new v.doing;
    kept = v.kept;
  }

  grown-Inv :
      (objects : minio.State) (store : EventStore) (s : Service minio)
      → ((e : String) → IsStored minio bucket s.objects e → IsStored minio bucket objects e)
      → ((e : String) → IsNoted s.system.store e → IsNoted store e)
      → Inv codec xml minio bucket s
      → Inv codec xml minio bucket
          (record s { objects = objects; system = record s.system { store = store } })
  grown-Inv objects store s stored noting v = record {
    doing = λ i.
        Doing-grows codec xml minio bucket s.objects objects s.system.store store stored noting _ _
          (s.progress i) (λ m h. h) (v.doing i);
    kept =
        KeptIf-grows codec xml minio bucket s.objects objects s.system.store store stored noting
          s.system.finished v.kept;
  }

  module _ (lawful : IsLawful minio) (atomic : IsAtomic minio) where
    Step-Inv :
        {s t : Service minio}
        → Step codec xml minio bucket s t
        → Inv codec xml minio bucket s
        → Inv codec xml minio bucket t
    Step-Inv {s} (threads {t} st a) v =
        let c = Step-IsCalm codec st a in
        record {
          doing = λ i.
              Doing-grows codec xml minio bucket s.objects s.objects s.system.store t.store
                (λ e h. h) c.noted (s.system.pool.threads i) (t.pool.threads i) (s.progress i)
                (c.busy i) (v.doing i);
          kept = subst (All (KeptIf codec xml minio bucket s.objects t.store)) (sym c.finished) (
              KeptIf-grows codec xml minio bucket s.objects s.objects s.system.store t.store
                (λ e h. h) c.noted s.system.finished v.kept);
        }
    Step-Inv {s} (rejects i m generated ex busy at e) v = progress-Inv i failed s tt v
    Step-Inv {s} (puts i m generated event_id body {objects} busy at made e) v =
        let grown =
          grown-Inv objects s.system.store s
            (λ id.
              put-IsStored minio bucket lawful atomic (ok tt) s.objects objects
                (object_key event_id) body id e)
            (λ id h. h) v in
        progress-Inv i (put event_id) (record s { objects = objects })
          (record {
            message = m;
            busy = busy;
            named = λ id found.
                render-peek codec xml minio bucket generated m.value id event_id body found made;
            made = record { generated = generated; body = body; rendered = made };
            stored = (body, lawful.stored s.objects objects bucket (object_key event_id) body e);
          })
          grown
    Step-Inv {s} (put_raises i m generated event_id body ex {objects} busy at made e) v =
        let grown =
          grown-Inv objects s.system.store s
            (λ id.
              put-IsStored minio bucket lawful atomic (raise ex) s.objects objects
                (object_key event_id) body id e)
            (λ id h. h) v in
        progress-Inv i failed (record s { objects = objects }) tt grown
    Step-Inv {s} (notes i event_id now at) v =
        let call = done event_id (object_key event_id) now in
        let store = perform call s.system.store in
        let grown =
          grown-Inv s.objects store s (λ id h. h) (λ id. perform-IsNoted call s.system.store id)
            v in
        let before =
          subst (Doing codec xml minio bucket s.objects store (s.system.pool.threads i)) at
            (grown.doing i) in
        progress-Inv i (noted event_id) (record s { system = record s.system { store = store } })
          (before, perform_done-IsNoted event_id (object_key event_id) now s.system.store) grown
    Step-Inv {s} (returns i m event_id {pool} lt e at) v =
        let (made, in_store) =
          subst (Doing codec xml minio bucket s.objects s.system.store (s.system.pool.threads i)) at
            (v.doing i) in
        let same = finish-message i m made.message s.system.pool e made.busy in
        end_work-Inv i m true pool s e
          (λ _. record {
            id = event_id;
            named = subst (λ x. IsIdOf codec xml minio bucket x event_id) same made.named;
            made = subst (λ x. IsMade codec xml minio bucket x event_id) same made.made;
            stored = made.stored;
            noted = in_store;
          })
          v
    Step-Inv {s} (raises i m {pool} lt e at) v = end_work-Inv i m false pool s e (λ h. cc) v
    Step-Inv {s} (replays event_id) v =
        grown-Inv s.objects (perform (pend event_id) s.system.store) s (λ id h. h)
          (λ id. perform-IsNoted (pend event_id) s.system.store id) v

    pub Reach-Inv :
        {n size : ℕ} {s : Service minio}
        → Reach codec xml minio bucket n size s
        → Inv codec xml minio bucket s
    Reach-Inv (begun objects a b) = record { doing = λ i. tt; kept = tt }
    Reach-Inv (later r st) = Step-Inv st (Reach-Inv r)
