-- ===== src/Service/Logs.antt =====
-- What the logs of a run hold: every message whose work has ended was read.
use event_pipeline_extension.Prelude.{
  ℕ, String, sym, true, false, List, [], ◌∷◌, All, All-map, IsIn, inl, inr, refl,
}
use mathlib.Core.Path.{subst}
use event_pipeline_extension.EventId.{Codec}
use event_pipeline_extension.Store.History.{pend, done}
use event_pipeline_extension.Processor.{Minio, XmlCodec, object_key}
use event_pipeline_extension.Pool.Order.{working-finish}
use event_pipeline_extension.Consumer.{Message}
use event_pipeline_extension.System
use event_pipeline_extension.System.Order.{key_of}
use event_pipeline_extension.System.{finishes, stores}
use event_pipeline_extension.Service.{
  Service, Step, threads, rejects, puts, put_raises, notes, returns, raises, replays, Reach, begun,
  later,
}
use event_pipeline_extension.Service.Calm.{Step-IsCalm}
use event_pipeline_extension.Service.Latest.Messages.{in_hand-route, Step-polled}

All-self : {A : Type 0} (l : List A) → All (λ a. IsIn a l) l
All-self [] = tt
All-self (a ∷ l) =
    (inl refl, All-map (λ b. IsIn b l) (λ b. IsIn b (a ∷ l)) (λ b i. inr i) l (All-self l))

module _ (codec : Codec) (xml : XmlCodec) (minio : Minio) (bucket : String) where
  -- The effects of the work are steps that the system allows.
  pub Reach-System :
      {n size : ℕ} {s : Service minio}
      → Reach codec xml minio bucket n size s
      → System.Reach codec n size s.system
  Reach-System (begun objects a b) = System.begun a b
  Reach-System (later r (threads st a)) = System.later (Reach-System r) st
  Reach-System (later r (rejects i m generated ex busy at e)) = Reach-System r
  Reach-System (later r (puts i m generated event_id body busy at made e)) = Reach-System r
  Reach-System (later r (put_raises i m generated event_id body ex busy at made e)) = Reach-System r
  Reach-System (later r (notes i event_id now at)) =
      System.later (Reach-System r) (stores (done event_id (object_key event_id) now))
  Reach-System (later r (returns i m event_id lt e at)) =
      System.later (Reach-System r) (finishes i m true lt e)
  Reach-System (later r (raises i m lt e at)) =
      System.later (Reach-System r) (finishes i m false lt e)
  Reach-System (later r (replays event_id)) = System.later (Reach-System r) (stores (pend event_id))

  -- What holds of all messages read held of them before.
  pub polled-Step :
      (P : Message → Type 0) {s t : Service minio}
      → Step codec xml minio bucket s t
      → All P t.system.polled
      → All P s.system.polled
  polled-Step P (threads st a) h = Step-polled P codec st h
  polled-Step P (rejects j m generated ex busy at e) h = h
  polled-Step P (puts j m generated id body busy at made e) h = h
  polled-Step P (put_raises j m generated id body ex busy at made e) h = h
  polled-Step P (notes j id now at) h = h
  polled-Step P (returns j m id lt e at) h = h
  polled-Step P (raises j m lt e at) h = h
  polled-Step P (replays id) h = h

  -- What holds of all messages read holds of those whose work has ended.
  ended_held :
      (P : Message → Type 0) {n size : ℕ} {s : Service minio}
      → Reach codec xml minio bucket n size s
      → All P s.system.polled
      → All (λ f. P f.0) s.system.finished
  ended_held P (begun objects a b) h = tt
  ended_held P (later {s} r (threads st a)) h =
      subst (All (λ f. P f.0)) (sym (Step-IsCalm codec st a).finished)
        (ended_held P r (Step-polled P codec st h))
  ended_held P (later r (rejects i m generated ex busy at e)) h = ended_held P r h
  ended_held P (later r (puts i m generated id body busy at made e)) h = ended_held P r h
  ended_held P (later r (put_raises i m generated id body ex busy at made e)) h = ended_held P r h
  ended_held P (later r (notes i id now at)) h = ended_held P r h
  ended_held P (later {s} r (returns i m id lt e at)) h = (
    (in_hand-route P codec (Reach-System r) h i m (working-finish key_of i m s.system.pool e)).0,
    ended_held P r h,
  )
  ended_held P (later {s} r (raises i m lt e at)) h = (
    (in_hand-route P codec (Reach-System r) h i m (working-finish key_of i m s.system.pool e)).0,
    ended_held P r h,
  )
  ended_held P (later r (replays id)) h = ended_held P r h

  pub finished_read :
      {n size : ℕ} {s : Service minio}
      → Reach codec xml minio bucket n size s
      → All (λ f. IsIn f.0 s.system.polled) s.system.finished
  finished_read {s} r = ended_held (λ m. IsIn m s.system.polled) r (All-self s.system.polled)
