-- ===== src/Service/Alone.antt =====
-- The steps of one message's work that no other thread disturbs are `process`.
use event_pipeline_extension.Prelude.{ℕ, String, ◌≡◌, refl, List, nat_beq_self}
use event_pipeline_extension.Prelude.Result.{Result, ok, raise}
use event_pipeline_extension.Errors.{Exception}
use event_pipeline_extension.EventId.{Codec}
use event_pipeline_extension.Store.{EventStore, DateTime}
use event_pipeline_extension.Store.History.{done, perform}
use event_pipeline_extension.Processor.{
  Minio, XmlCodec, object_key, render, after_put, put_rendered, process,
}
use event_pipeline_extension.Pool.{working, update}
use event_pipeline_extension.Consumer.{Message}
use event_pipeline_extension.Service.{
  Service, Progress, untouched, failed, put, noted, Step, rejects, puts, put_raises, notes,
}

module _ (codec : Codec) (xml : XmlCodec) (minio : Minio) (bucket : String) where
  -- Some steps, one after the other.
  pub data Steps (s : Service minio) : Service minio → Type 0 where
    here : Steps s s
    next : {t u : Service minio} → Steps s t → Step codec xml minio bucket t u → Steps s u

  -- The worker stands where the work has returned a key, or raised.
  abbrev pub StandsAt : Result Exception String → Progress → Type 0
  StandsAt (ok key) progress = (id : String) × (progress ≡ noted id) × (key ≡ object_key id)
  StandsAt (raise ex) progress = progress ≡ failed

  -- Steps after which the object store, the event store and the worker are as `r` says, and the pool
  -- is as it was.
  pub record HasDone (s : Service minio) (i : ℕ)
      (r : Result Exception String × minio.State × EventStore) : Type 0 where
    pub last : Service minio
    pub steps : Steps s last
    pub objects : last.objects ≡ r.1
    pub store : last.system.store ≡ r.2
    pub stands : StandsAt r.0 (last.progress i)
    pub pool : last.system.pool ≡ s.system.pool

  module _ (s : Service minio) (i : ℕ) (m : Message) (generated : String) (now : DateTime)
      (busy : s.system.pool.threads i ≡ working m) (at : s.progress i ≡ untouched) where
    put_done :
        (event_id : String) (body : List ℕ) (r : Result Exception (Unit {0}) × minio.State)
        → render codec xml minio bucket generated m.value ≡ ok (event_id, body)
        → minio.put_object s.objects bucket (object_key event_id) body ≡ r
        → HasDone s i (after_put codec xml minio bucket event_id now s.system.store r)
    put_done event_id body (raise ex, objects) made e = record {
      last = record s { objects = objects; progress = update s.progress i failed };
      steps = next here (put_raises i m generated event_id body ex busy at made e);
      objects = refl;
      store = refl;
      stands = rw (nat_beq_self i) refl;
      pool = refl;
    }
    put_done event_id body (ok tt, objects) made e =
        let stored = record s {
          objects = objects;
          progress = update s.progress i (put event_id);
        } in
        record {
          last = record stored {
            system = record stored.system {
              store = perform (done event_id (object_key event_id) now) stored.system.store;
            };
            progress = update stored.progress i (noted event_id);
          };
          steps =
              next (next here (puts i m generated event_id body busy at made e))
                (notes i event_id now (rw (nat_beq_self i) refl));
          objects = refl;
          store = unfold perform in refl;
          stands = (event_id, rw (nat_beq_self i) refl, refl);
          pool = refl;
        }

    rendered_done :
        (r : Result Exception (String × List ℕ))
        → render codec xml minio bucket generated m.value ≡ r
        → HasDone s i (put_rendered codec xml minio bucket now s.objects s.system.store r)
    rendered_done (raise ex) made = record {
      last = record s { progress = update s.progress i failed };
      steps = next here (rejects i m generated ex busy at made);
      objects = refl;
      store = refl;
      stands = rw (nat_beq_self i) refl;
      pool = refl;
    }
    rendered_done (ok (event_id, body)) made = put_done event_id body _ made refl

    -- The steps of a worker refine `process`: a worker with a message in hand can make steps that take
    -- the object store and the event store to where `process` of the message's value takes them, and
    -- after which it stands at the return of the same key, or at an exception if `process` raises.
    pub steps-process :
        HasDone s i (process codec xml minio bucket generated now m.value s.objects s.system.store)
    unfolding process
    steps-process = rendered_done (render codec xml minio bucket generated m.value) refl
