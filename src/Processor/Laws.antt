-- ===== src/Processor/Laws.antt =====
-- What `process` leaves in the object store and in the event store, on every path.
use event_pipeline_extension.Prelude.{
  ℕ, String, ◌≡◌, ◌≢◌, refl, ap, ◌∙◌, ◌⊎◌, inl, inr, Option, none, some, List, arith, string_eq,
}
use event_pipeline_extension.Prelude.Result.{Result, ok, raise, ◌>>=◌}
use event_pipeline_extension.Errors.{Exception}
use event_pipeline_extension.Dict.Laws.{get-put_self}
use event_pipeline_extension.Json.{Json}
use event_pipeline_extension.EventId.{Codec, peek_event_id, peek_parsed, extract-peek}
use event_pipeline_extension.Store.{EventStore, DateTime, lookup, mark_processed, processed_record}
use event_pipeline_extension.Processor.{
  Minio, IsLawful, XmlCodec, object_key, render_parsed, render, after_put, put_rendered, process,
}

lookup-mark_processed :
    (e k : String) (t : DateTime) (s : EventStore)
    → lookup (mark_processed e k t s) e ≡ some (processed_record e k t)
unfolding lookup mark_processed
lookup-mark_processed e k t s = get-put_self e (processed_record e k t) s

module _ (codec : Codec) (xml : XmlCodec) (minio : Minio) (bucket : String) where
  abbrev Outcome : Type 0
  Outcome = Result Exception String × minio.State × EventStore

  -- A run that returns has stored the body under the key of the event and noted it as processed.
  pub record IsStored (event_id : String) (body : List ℕ) (now : DateTime) (o : Outcome)
      : Type 0 where
    pub result : o.0 ≡ ok (object_key event_id)
    pub stored : minio.object o.1 bucket (object_key event_id) ≡ some body
    pub noted : lookup o.2 event_id ≡ some (processed_record event_id (object_key event_id) now)

  -- A run that raises has noted nothing.
  pub record IsRaised (store : EventStore) (o : Outcome) : Type 0 where
    pub error : Exception
    pub result : o.0 ≡ raise error
    pub unnoted : o.2 ≡ store

  put-cases :
      IsLawful minio
      → (now : DateTime) (s : minio.State) (store : EventStore) (event_id : String) (body : List ℕ)
        (r : Result Exception (Unit {0})) (t : minio.State)
      → minio.put_object s bucket (object_key event_id) body ≡ (r, t)
      → IsStored event_id body now (after_put codec xml minio bucket event_id now store (r, t))
        ⊎ IsRaised store (after_put codec xml minio bucket event_id now store (r, t))
  put-cases lawful now s store event_id body (raise ex) t h =
      inr (record { error = ex; result = refl; unnoted = refl })
  put-cases lawful now s store event_id body (ok tt) t h = inl (record {
    result = refl;
    stored = lawful.stored s t bucket (object_key event_id) body h;
    noted = lookup-mark_processed event_id (object_key event_id) now store;
  })

  -- The two ends of a run of `process`.
  pub data Ended (generated : String) (now : DateTime) (raw : Option (List ℕ)) (store : EventStore)
      (o : Outcome) : Type 0 where
    returned :
        (event_id : String) (body : List ℕ)
        → render codec xml minio bucket generated raw ≡ ok (event_id, body)
        → IsStored event_id body now o
        → Ended generated now raw store o
    raised : IsRaised store o → Ended generated now raw store o

  put_rendered-Ended :
      IsLawful minio
      → (generated : String) (now : DateTime) (raw : Option (List ℕ)) (s : minio.State)
        (store : EventStore) (r : Result Exception (String × List ℕ))
      → render codec xml minio bucket generated raw ≡ r
      → Ended generated now raw store (put_rendered codec xml minio bucket now s store r)
  put_rendered-Ended lawful generated now raw s store (raise ex) e =
      raised (record { error = ex; result = refl; unnoted = refl })
  put_rendered-Ended lawful generated now raw s store (ok (event_id, body)) e =
      elim (put-cases lawful now s store event_id body
        (minio.put_object s bucket (object_key event_id) body).0
        (minio.put_object s bucket (object_key event_id) body).1 refl) [
          | inl done ↦ returned event_id body e done
          | inr failed ↦ raised failed
        ]

  -- A message is processed as a whole or not noted at all: either `process` returns the key of the
  -- event, the object store holds the body under that key, and the event is noted as processed with
  -- that key and the time, or it raises and the event store is as it was.
  pub process_atomic :
      IsLawful minio
      → (generated : String) (now : DateTime) (raw : Option (List ℕ)) (s : minio.State)
        (store : EventStore)
      → Ended generated now raw store (process codec xml minio bucket generated now raw s store)
  unfolding process
  process_atomic lawful generated now raw s store =
      put_rendered-Ended lawful generated now raw s store
        (render codec xml minio bucket generated raw) refl

  after_put-object :
      (event_id : String) (now : DateTime) (store : EventStore)
      (r : Result Exception (Unit {0}) × minio.State)
      → (after_put codec xml minio bucket event_id now store r).1 ≡ r.1
  after_put-object event_id now store (raise ex, t) = refl
  after_put-object event_id now store (ok _, t) = refl

  put_rendered-other :
      IsLawful minio
      → (now : DateTime) (s : minio.State) (store : EventStore)
        (r : Result Exception (String × List ℕ)) (b k : String)
      → ((event_id : String) (body : List ℕ)
          → r ≡ ok (event_id, body)
          → (b ≢ bucket) ⊎ (k ≢ object_key event_id))
      → minio.object (put_rendered codec xml minio bucket now s store r).1 b k ≡ minio.object s b k
  put_rendered-other lawful now s store (raise ex) b k h = refl
  put_rendered-other lawful now s store (ok (event_id, body)) b k h =
      ap (λ t. minio.object t b k)
        (after_put-object event_id now store (minio.put_object s bucket (object_key event_id) body))
      ∙ lawful.others s bucket (object_key event_id) body b k (h event_id body refl)

  -- Whether `process` returns or raises, no object but the one under the key of its event changes.
  pub process-object_other :
      IsLawful minio
      → (generated : String) (now : DateTime) (raw : Option (List ℕ)) (s : minio.State)
        (store : EventStore) (b k : String)
      → ((event_id : String) (body : List ℕ)
          → render codec xml minio bucket generated raw ≡ ok (event_id, body)
          → (b ≢ bucket) ⊎ (k ≢ object_key event_id))
      → minio.object (process codec xml minio bucket generated now raw s store).1 b k
        ≡ minio.object s b k
  unfolding process
  process-object_other lawful generated now raw s store b k h =
      put_rendered-other lawful now s store (render codec xml minio bucket generated raw) b k h

  render-peek_parsed :
      (generated : String) (r : Result Exception Json) (event_id id : String) (body : List ℕ)
      → peek_parsed codec r ≡ ok (some event_id)
      → render_parsed codec xml minio bucket generated r ≡ ok (id, body)
      → id ≡ event_id
  render-peek_parsed generated (ok value) event_id id body p e =
      ground (arith, extract-peek codec generated value)
  render-peek_parsed generated (raise ex) event_id id body p e = cc

  -- The processor stores under the id that the consumer's look at the body found.
  pub render-peek :
      (generated : String) (raw : Option (List ℕ)) (event_id id : String) (body : List ℕ)
      → peek_event_id codec raw ≡ ok (some event_id)
      → render codec xml minio bucket generated raw ≡ ok (id, body)
      → id ≡ event_id
  unfolding peek_event_id render
  render-peek generated none event_id id body p e = cc
  render-peek generated (some bytes) event_id id body p e =
      render-peek_parsed generated (do text ← codec.decode bytes; codec.loads text) event_id id body
        p e

  -- The id that the consumer marked pending is the id under which the message is then processed: if
  -- the consumer's look at a body found an id and `process` of the same body returns a key, the event
  -- store has that id as processed, with that key.
  pub process-peek :
      IsLawful minio
      → (generated : String) (now : DateTime) (raw : Option (List ℕ)) (s : minio.State)
        (store : EventStore) (event_id key : String)
      → peek_event_id codec raw ≡ ok (some event_id)
      → (process codec xml minio bucket generated now raw s store).0 ≡ ok key
      → (key ≡ object_key event_id)
        × (lookup (process codec xml minio bucket generated now raw s store).2 event_id
            ≡ some (processed_record event_id key now))
  process-peek lawful generated now raw s store event_id key peeked result =
      ended (process_atomic lawful generated now raw s store)
    where
      ended :
          Ended generated now raw store (process codec xml minio bucket generated now raw s store)
          → (key ≡ object_key event_id)
            × (lookup (process codec xml minio bucket generated now raw s store).2 event_id
                ≡ some (processed_record event_id key now))
      ended (raised r) = cc (r.result)
      ended (returned id body e st) =
          let same : id ≡ event_id = render-peek generated raw event_id id body peeked e in
          (cc (st.result), cc (st.result, st.noted))
