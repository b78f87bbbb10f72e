-- ===== src/Service/Objects.antt =====
-- An object that is in the object store stays there, and an event that is noted stays noted.
use mathlib.Core.Path.{subst}
use event_pipeline_extension.Prelude.{
  ℕ, String, ◌≡◌, refl, sym, ◌∙◌, ap, inl, inr, Option, none, some, List, arith, ◌==◌, string_eq,
  nat_eq, pair_eq, eq_law, Bool-cases,
}
use event_pipeline_extension.Prelude.Result.{Result, ok, raise, ◌>>=◌}
use event_pipeline_extension.Errors.{Exception}
use event_pipeline_extension.EventId.{Codec, peek_event_id}
use event_pipeline_extension.Store.{EventStore, EventRecord, processed, processed_record, lookup}
use event_pipeline_extension.Store.History.{Call, pend, done, perform, processed_stays, view-done}
use event_pipeline_extension.Processor.{Minio, IsLawful, IsAtomic, object_key}
use event_pipeline_extension.Watermark.{observe}
use event_pipeline_extension.Consumer.{Message, Consumer, dispatch, first_seen}

-- The store has the event as processed.
abbrev pub IsNoted : EventStore → String → Type 0
IsNoted store e = (r : EventRecord) × (lookup store e ≡ some r) × (r.status ≡ processed)

pub perform-IsNoted :
    (c : Call) (store : EventStore) (e : String) → IsNoted store e → IsNoted (perform c store) e
perform-IsNoted c store e h = processed_stays c store e h.0 h.1 h.2

pub perform_done-IsNoted :
    (e key : String) (now : ℕ) (store : EventStore) → IsNoted (perform (done e key now) store) e
unfolding perform
perform_done-IsNoted e key now store =
    (processed_record e key now, ground (arith, eq_law e e, view-done e e key now store), refl)

first_seen-IsNoted :
    (o : Option String) (store : EventStore) (e : String)
    → IsNoted store e
    → IsNoted (first_seen o store) e
unfolding perform
first_seen-IsNoted none store e h = h
first_seen-IsNoted (some j) store e h = perform-IsNoted (pend j) store e h

pub dispatch-IsNoted :
    (codec : Codec) (m : Message) (store : EventStore) (c : Consumer) {store' : EventStore}
    {c' : Consumer} (e : String)
    → dispatch codec m store c ≡ ok (store', c')
    → IsNoted store e
    → IsNoted store' e
unfolding dispatch
dispatch-IsNoted codec m store c {store'} {c'} e h noted = found (peek_event_id codec m.value) h
  where
    after : Option String → Result Exception (EventStore × Consumer)
    after event_id =
        ok (first_seen event_id store, record c { watermark = observe m.tp m.offset c.watermark })

    found :
        (r : Result Exception (Option String)) → (r >>= after) ≡ ok (store', c') → IsNoted store' e
    found (ok o) h =
        let same : first_seen o store ≡ store' = cc in
        subst (λ s. IsNoted s e) same (first_seen-IsNoted o store e noted)
    found (raise ex) h = cc

module _ (minio : Minio) (bucket : String) where
  abbrev pub IsStored : minio.State → String → Type 0
  IsStored objects e = (body : List ℕ) × (minio.object objects bucket (object_key e) ≡ some body)

  module _ (lawful : IsLawful minio) (atomic : IsAtomic minio) where
    put-IsStored_same :
        (r : Result Exception (Unit {0})) (s t : minio.State) (key : String) (body : List ℕ)
        (e : String)
        → minio.put_object s bucket key body ≡ (r, t)
        → key ≡ object_key e
        → IsStored s e
        → IsStored t e
    put-IsStored_same (ok tt) s t key body e h same old =
        (body, rw (← same) (lawful.stored s t bucket key body h))
    put-IsStored_same (raise ex) s t key body e h same old =
        elim (atomic.whole s t bucket key body ex h) [
          | inl kept ↦ (old.0, rw (← same) (kept ∙ rw same old.1))
          | inr new ↦ (body, rw (← same) new)
        ]

    -- No put takes an object away.
    pub put-IsStored :
        (r : Result Exception (Unit {0})) (s t : minio.State) (key : String) (body : List ℕ)
        (e : String)
        → minio.put_object s bucket key body ≡ (r, t)
        → IsStored s e
        → IsStored t e
    put-IsStored r s t key body e h old = elim (Bool-cases (key == object_key e)) [
      | inl same ↦ put-IsStored_same r s t key body e h ((eq_law key (object_key e)).0 same) old
      | inr other ↦ (
        old.0,
        ap (λ u. minio.object u.1 bucket (object_key e)) (sym h)
            ∙ lawful.others s bucket key body bucket (object_key e)
                (inr (λ same. cc ((eq_law key (object_key e)).1 (sym same), other)))
            ∙ old.1,
      )
    ]
