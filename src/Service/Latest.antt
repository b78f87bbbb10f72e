-- ===== src/Service/Latest.antt =====
-- The object of an event, when several messages have it: the messages that write one object have one
-- Kafka key, so that one worker has them all, in their order.
pub mod Messages
pub mod Keeps
pub mod Puts
pub mod Steps
pub mod Object
use event_pipeline_extension.Prelude.{
  ℕ, String, ◌≡◌, ◌≢◌, ◌⊎◌, Bool, true, Option, some, List, [], ◌∷◌, nat_beq, false,
}
use event_pipeline_extension.Prelude.Result.{ok}
use event_pipeline_extension.EventId.{Codec}
use event_pipeline_extension.Processor.{Minio, XmlCodec, object_key, render}
use event_pipeline_extension.Pool.{Thread, working}
use event_pipeline_extension.Consumer.{Message}
use event_pipeline_extension.Service.{Service, Progress, untouched, failed, put, noted}

module _ (codec : Codec) (xml : XmlCodec) (minio : Minio) (bucket name : String) where
  -- The message makes this body for the object `name`.
  pub record IsWriting (m : Message) (body : List ℕ) : Type 0 where
    pub generated : String
    pub id : String
    pub made : render codec xml minio bucket generated m.value ≡ ok (id, body)
    pub named : object_key id ≡ name

  -- The message was made into another object.
  pub record IsSparing (m : Message) : Type 0 where
    pub generated : String
    pub id : String
    pub body : List ℕ
    pub made : render codec xml minio bucket generated m.value ≡ ok (id, body)
    pub named : object_key id ≢ name

  -- The object holds the body of the latest of the messages whose work has ended, the latest first: of
  -- one that made this body, such that each later one that returned was made into another object. If
  -- none of them wrote the object, it may be of another run.
  abbrev pub Latest : List (Message × Bool) → Option (List ℕ) → Type 0
  Latest [] o = Unit
  Latest ((m, success) ∷ older) o =
      ((body : List ℕ) × IsWriting m body × (o ≡ some body))
      ⊎ ((success ≡ true → IsSparing m) × Latest older o)

  -- The message in hand has written the object.
  pub record Wrote (thread : Thread Message) (o : Option (List ℕ)) : Type 0 where
    pub message : Message
    pub busy : thread ≡ working message
    pub body : List ℕ
    pub writing : IsWriting message body
    pub holds : o ≡ some body

  pub record Spared (thread : Thread Message) : Type 0 where
    pub message : Message
    pub busy : thread ≡ working message
    pub sparing : IsSparing message

  -- What is known of the worker that has the messages of the object.
  abbrev pub Mine : Thread Message → Progress → List (Message × Bool) → Option (List ℕ) → Type 0
  Mine thread untouched l o = Latest l o
  Mine thread failed l o = Wrote thread o ⊎ Latest l o
  Mine thread (put id) l o = Wrote thread o ⊎ (Spared thread × Latest l o)
  Mine thread (noted id) l o = Wrote thread o ⊎ (Spared thread × Latest l o)

  -- What is known of the other workers.
  abbrev pub Other : Thread Message → Progress → Type 0
  Other thread (put id) = Spared thread
  Other thread (noted id) = Spared thread
  Other thread _ = Unit

  abbrev pub object_in : minio.State → Option (List ℕ)
  object_in objects = minio.object objects bucket name

  pub record Inv (worker : ℕ) (s : Service minio) : Type 0 where
    pub mine :
        Mine
          (s.system.pool.threads worker)
          (s.progress worker)
          s.system.finished
          (object_in s.objects)
    pub others : (j : ℕ) → j ≢ worker → Other (s.system.pool.threads j) (s.progress j)
