-- ===== src/Service/Invariant.antt =====
-- What is known of every worker's work so far, and of every message whose work has returned.
use event_pipeline_extension.Prelude.{ℕ, String, ◌≡◌, Bool, true, some, List, All, All-map}
use event_pipeline_extension.Prelude.Result.{ok}
use event_pipeline_extension.EventId.{Codec, peek_event_id}
use event_pipeline_extension.Store.{EventStore}
use event_pipeline_extension.Processor.{Minio, XmlCodec, render}
use event_pipeline_extension.Pool.{Thread, working}
use event_pipeline_extension.Consumer.{Message}
use event_pipeline_extension.Service.{Service, Progress, untouched, failed, put, noted}
use event_pipeline_extension.Service.Objects.{IsNoted, IsStored}

module _ (codec : Codec) (xml : XmlCodec) (minio : Minio) (bucket : String) where
  -- The message is stored under this id: it is the one that the consumer found, if it found one.
  abbrev pub IsIdOf : Message → String → Type 0
  IsIdOf m id = (e : String) → peek_event_id codec m.value ≡ ok (some e) → id ≡ e

  -- `process` of the message is about this id: it makes a body under it.
  pub record IsMade (m : Message) (id : String) : Type 0 where
    pub generated : String
    pub body : List ℕ
    pub rendered : render codec xml minio bucket generated m.value ≡ ok (id, body)

  pub record IsKept (objects : minio.State) (store : EventStore) (m : Message) : Type 0 where
    pub id : String
    pub named : IsIdOf m id
    pub made : IsMade m id
    pub stored : IsStored minio bucket objects id
    pub noted : IsNoted store id

  abbrev pub KeptIf : minio.State → EventStore → Message × Bool → Type 0
  KeptIf objects store r = r.1 ≡ true → IsKept objects store r.0

  pub record IsPut (objects : minio.State) (thread : Thread Message) (id : String) : Type 0 where
    pub message : Message
    pub busy : thread ≡ working message
    pub named : IsIdOf message id
    pub made : IsMade message id
    pub stored : IsStored minio bucket objects id

  -- What is known of a worker's work so far.
  abbrev pub Doing : minio.State → EventStore → Thread Message → Progress → Type 0
  Doing objects store thread untouched = Unit
  Doing objects store thread failed = Unit
  Doing objects store thread (put id) = IsPut objects thread id
  Doing objects store thread (noted id) = IsPut objects thread id × IsNoted store id

  module _ (o o' : minio.State) (s s' : EventStore)
      (stored : (e : String) → IsStored minio bucket o e → IsStored minio bucket o' e)
      (noting : (e : String) → IsNoted s e → IsNoted s' e) where
    IsKept-grows : (m : Message) → IsKept o s m → IsKept o' s' m
    IsKept-grows m k = record {
      id = k.id;
      named = k.named;
      made = k.made;
      stored = stored k.id k.stored;
      noted = noting k.id k.noted;
    }

    pub KeptIf-grows : (l : List (Message × Bool)) → All (KeptIf o s) l → All (KeptIf o' s') l
    KeptIf-grows l = All-map _ _ (λ r k e. IsKept-grows r.0 (k e)) l

    pub IsPut-grows :
        (t t' : Thread Message) (id : String)
        → ((m : Message) → t ≡ working m → t' ≡ working m)
        → IsPut o t id
        → IsPut o' t' id
    IsPut-grows t t' id stays p = record {
      message = p.message;
      busy = stays p.message p.busy;
      named = p.named;
      made = p.made;
      stored = stored id p.stored;
    }

    pub Doing-grows :
        (t t' : Thread Message) (p : Progress)
        → ((m : Message) → t ≡ working m → t' ≡ working m)
        → Doing o s t p
        → Doing o' s' t' p
    Doing-grows t t' untouched stays d = tt
    Doing-grows t t' failed stays d = tt
    Doing-grows t t' (put id) stays d = IsPut-grows t t' id stays d
    Doing-grows t t' (noted id) stays d = (IsPut-grows t t' id stays d.0, noting id d.1)

  pub record Inv (s : Service minio) : Type 0 where
    pub doing : (i : ℕ) → Doing s.objects s.system.store (s.system.pool.threads i) (s.progress i)
    pub kept : All (KeptIf s.objects s.system.store) s.system.finished
