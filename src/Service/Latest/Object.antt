-- ===== src/Service/Latest/Object.antt =====
-- What an object holds between two messages of its key.
use event_pipeline_extension.Prelude.{ℕ, String, ◌≡◌, refl, All}
use event_pipeline_extension.EventId.{Codec}
use event_pipeline_extension.Processor.{Minio, XmlCodec, IsLawful, IsAtomic}
use event_pipeline_extension.Pool.{Key, route}
use event_pipeline_extension.Service.{Service, untouched, Reach, begun, later}
use event_pipeline_extension.Service.Latest.{Latest, object_in}
use event_pipeline_extension.Service.Logs.{polled-Step}
use event_pipeline_extension.Service.Latest.Keeps.{HasKey}
use event_pipeline_extension.Service.Latest.Puts.{Known, routed, Mine-progress}
use event_pipeline_extension.Service.Latest.Steps.{Step-Known}

module _ (codec : Codec) (xml : XmlCodec) (minio : Minio) (bucket name : String) where
  module _ (lawful : IsLawful minio) (atomic : IsAtomic minio) where
    Reach-Known :
        {n size : ℕ} {s : Service minio} (k : Key)
        → Reach codec xml minio bucket n size s
        → All (HasKey codec xml minio bucket name k) s.system.polled
        → Known codec xml minio bucket name lawful atomic n k s
    unfolding Known
    Reach-Known k (begun objects a b) h = record { mine = tt; others = λ j apart. tt }
    Reach-Known {n} k (later r st) h =
        let before =
          polled-Step codec xml minio bucket (HasKey codec xml minio bucket name k) st h in
        Step-Known codec xml minio bucket name lawful atomic n k st
          (routed codec xml minio bucket name lawful atomic n k r before) (Reach-Known k r before)

    -- The latest message wins: if the object store is lawful, its puts are atomic, and all messages
    -- read that make a body for an object have one Kafka key, then in every state that the threads can
    -- get into and in which the worker of that key is between two messages, the object holds the body
    -- of the latest of those messages whose work has ended, not counting such that raised without
    -- having stored it; if there is none, nothing is said.
    pub latest_object :
        {n size : ℕ} {s : Service minio} (k : Key)
        → Reach codec xml minio bucket n size s
        → All (HasKey codec xml minio bucket name k) s.system.polled
        → s.progress (route n k) ≡ untouched
        → Latest codec xml minio bucket name s.system.finished
            (object_in codec xml minio bucket name s.objects)
    latest_object {n} {s} k r h at =
        Mine-progress codec xml minio bucket name lawful atomic n k s (route n k) untouched at
          (Reach-Known k r h) refl
