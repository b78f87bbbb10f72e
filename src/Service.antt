-- ===== src/Service.antt =====
-- The threads of event_processor with the effects of their work: a worker's `process` of a message
-- (event_processor/processor.py) is a run of steps of its own, between which any other thread may
-- step, and the endpoints mark events pending (event_processor/api.py).
pub mod Objects
pub mod Calm
pub mod Invariant
pub mod Kept
pub mod Logs
pub mod Safety
pub mod Restarts
pub mod Alone
pub mod Latest
mod Tests
use event_pipeline_extension.Prelude.{
  ℕ, ◌<◌, String, ◌≡◌, Bool, true, false, none, some, List, [], ◌∷◌, ◌++◌, if◌then◌else◌, nat_beq,
}
use event_pipeline_extension.Prelude.Result.{Result, ok, raise}
use event_pipeline_extension.Errors.{Exception}
use event_pipeline_extension.EventId.{Codec}
use event_pipeline_extension.Store.{DateTime}
use event_pipeline_extension.Store.History.{pend, done, perform}
use event_pipeline_extension.Processor.{Minio, XmlCodec, object_key, render}
use event_pipeline_extension.Pool
use event_pipeline_extension.Pool.{WorkerPool, working, update, finish}
use event_pipeline_extension.Consumer.{Message, completion_of}
use event_pipeline_extension.System
use event_pipeline_extension.System.{System, finishes, stores}

-- How far a worker is with `process` of its message: nothing is done, the object is put, the event is
-- noted in the store, or an exception is on its way.
pub data Progress : Type 0 where
  untouched failed : Progress
  put noted : String → Progress

pub record Service (minio : Minio) : Type 0 where
  pub system : System
  pub objects : minio.State
  pub progress : ℕ → Progress

module _ (minio : Minio) where
  abbrev pub init : WorkerPool Message → minio.State → Service minio
  init pool objects = record {
    system = System.init pool;
    objects = objects;
    progress = λ i. untouched;
  }

  -- A worker's work of a message ends: `on_done` puts the completion.
  abbrev pub end_work : ℕ → Message → Bool → WorkerPool Message → Service minio → Service minio
  end_work i m success pool s = record s {
    system = record s.system {
      pool = pool;
      completions = s.system.completions ++ completion_of m success ∷ [];
      finished = (m, success) ∷ s.system.finished;
    };
    progress = update s.progress i untouched;
  }

module _ (codec : Codec) where
  -- The steps that are not the effects of some work.
  abbrev pub IsOther : {s t : System} → System.Step codec s t → Type 0
  IsOther (finishes i m success lt e) = ⊥
  IsOther (stores c) = ⊥
  IsOther _ = Unit

module _ (codec : Codec) (xml : XmlCodec) (minio : Minio) (bucket : String) where
  pub data Step (s : Service minio) : Service minio → Type 0 where
    threads :
        {t : System} (st : System.Step codec s.system t)
        → IsOther codec st
        → Step s (record s { system = t })
    -- The body of the message cannot be decoded, parsed, or written as XML.
    rejects :
        (i : ℕ) (m : Message) (generated : String) (ex : Exception)
        → s.system.pool.threads i ≡ working m
        → s.progress i ≡ untouched
        → render codec xml minio bucket generated m.value ≡ raise ex
        → Step s (record s { progress = update s.progress i failed })
    puts :
        (i : ℕ) (m : Message) (generated event_id : String) (body : List ℕ) {objects : minio.State}
        → s.system.pool.threads i ≡ working m
        → s.progress i ≡ untouched
        → render codec xml minio bucket generated m.value ≡ ok (event_id, body)
        → minio.put_object s.objects bucket (object_key event_id) body ≡ (ok tt, objects)
        → Step s (record s { objects = objects; progress = update s.progress i (put event_id) })
    put_raises :
        (i : ℕ) (m : Message) (generated event_id : String) (body : List ℕ) (ex : Exception)
        {objects : minio.State}
        → s.system.pool.threads i ≡ working m
        → s.progress i ≡ untouched
        → render codec xml minio bucket generated m.value ≡ ok (event_id, body)
        → minio.put_object s.objects bucket (object_key event_id) body ≡ (raise ex, objects)
        → Step s (record s { objects = objects; progress = update s.progress i failed })
    notes :
        (i : ℕ) (event_id : String) (now : DateTime)
        → s.progress i ≡ put event_id
        → Step s (record s {
          system = record s.system {
            store = perform (done event_id (object_key event_id) now) s.system.store;
          };
          progress = update s.progress i (noted event_id);
        })
    returns :
        (i : ℕ) (m : Message) (event_id : String) {pool : WorkerPool Message}
        → i < s.system.pool.num_workers
        → finish i s.system.pool ≡ some (m, pool)
        → s.progress i ≡ noted event_id
        → Step s (end_work minio i m true pool s)
    raises :
        (i : ℕ) (m : Message) {pool : WorkerPool Message}
        → i < s.system.pool.num_workers
        → finish i s.system.pool ≡ some (m, pool)
        → s.progress i ≡ failed
        → Step s (end_work minio i m false pool s)
    -- An accepted replay.
    replays :
        (event_id : String)
        → Step s (record s {
          system = record s.system { store = perform (pend event_id) s.system.store };
        })

  pub data Reach (n size : ℕ) : Service minio → Type 0 where
    begun :
        {p₀ p : WorkerPool Message} (objects : minio.State)
        → Pool.init n size ≡ ok p₀
        → Pool.start p₀ ≡ ok p
        → Reach n size (init minio p objects)
    later : {s t : Service minio} → Reach n size s → Step s t → Reach n size t
