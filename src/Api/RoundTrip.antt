-- ===== src/Api/RoundTrip.antt =====
-- From an endpoint back to it: what a replay publishes is processed under the replayed id, and a
-- processed event is reported as processed.
use event_pipeline_extension.Prelude.{
  ℕ, String, ◌≡◌, ◌≢◌, refl, ap, ◌∙◌, ◌↔◌, Bool, true, false, Option, none, some, List, arith,
  string_eq, eq_law,
}
use event_pipeline_extension.Prelude.Result.{Result, ok, raise}
use event_pipeline_extension.Errors.{Exception}
use event_pipeline_extension.Json
use event_pipeline_extension.Json.{Json, Fields, dict}
use event_pipeline_extension.EventId.{Codec, peek_event_id, peek_value}
use event_pipeline_extension.Store.{EventStore, DateTime}
use event_pipeline_extension.Client.{ClientError, Http, Client, get_event}
use event_pipeline_extension.Publisher.{Producer, publish}
use event_pipeline_extension.Processor.{Minio, XmlCodec, IsLawful, object_key, process}
use event_pipeline_extension.Processor.Laws.{process-peek}
use event_pipeline_extension.Health.{kafka_reachable, minio_reachable}
use event_pipeline_extension.Api.Laws.{on_client_error_refuses}
use event_pipeline_extension.Api
use event_pipeline_extension.Api.{
  Response, respond, crashed, accepted, is_processed, health_report, health_endpoint, event_status,
  Encoder, World, envelope, on_client_error, after_publish, publish_event, after_fetch, replay,
}

-- The value survives `json.dumps`, `str.encode`, `bytes.decode` and `json.loads`.
pub record IsInverse (codec : Codec) (encoder : Encoder) (v : Json) : Type 0 where
  pub decoded : codec.decode (encoder.encode (encoder.dumps v)) ≡ ok (encoder.dumps v)
  pub loaded : codec.loads (encoder.dumps v) ≡ ok v

module _ (codec : Codec) (encoder : Encoder) (http : Http) (producer : Producer)
    (topic : String) where
  -- The value of the message that a replay produces.
  abbrev pub value_of : String → Json → List ℕ
  value_of event_id payload =
      encoder.encode (encoder.dumps (envelope codec encoder http producer topic event_id payload))

  envelope-peek :
      (event_id : String) (payload : Json)
      → event_id ≢ ""
      → peek_value codec (envelope codec encoder http producer topic event_id payload)
        ≡ some event_id
  unfolding peek_value Json.get Json.truthy
  envelope-peek event_id payload h = ground (arith, eq_law event_id "")

  -- An envelope with a non-empty id that survives its encoding and decoding reaches the consumer: its
  -- look at the published value finds the id.
  pub peek-value_of :
      (event_id : String) (payload : Json)
      → event_id ≢ ""
      → IsInverse codec encoder (envelope codec encoder http producer topic event_id payload)
      → peek_event_id codec (some (value_of event_id payload)) ≡ ok (some event_id)
  unfolding peek_event_id
  peek-value_of event_id payload h inverse =
      rw (inverse.decoded, inverse.loaded) (ap (λ o. ok o) (envelope-peek event_id payload h))

  -- The envelope of this event was published.
  record IsSent (event_id : String) (w : World codec encoder http producer topic) (event : Json)
      (o : Response × World codec encoder http producer topic) : Type 0 where
    fields : Fields
    event_dict : event ≡ dict fields
    sent :
        publish encoder.encode producer topic event_id
          (value_of event_id (Json.get "payload" fields))
          w.producer_state
        ≡ (ok tt, o.1.producer_state)

  -- An event was fetched, and the envelope with its payload was published.
  pub record IsRepublished (event_id : String) (w : World codec encoder http producer topic)
      (o : Response × World codec encoder http producer topic) : Type 0 where
    pub fields : Fields
    pub fetched : (get_event codec http event_id w.client w.http_state).0 ≡ ok (dict fields)
    pub sent :
        publish encoder.encode producer topic event_id
          (value_of event_id (Json.get "payload" fields))
          w.producer_state
        ≡ (ok tt, o.1.producer_state)

  after_publish_sent :
      (event_id : String) (w : World codec encoder http producer topic)
      (r : Result Exception (Unit {0}) × producer.State)
      → (after_publish codec encoder http producer topic event_id w r).0
        ≡ respond 202 (accepted event_id)
      → r ≡ (ok tt, (after_publish codec encoder http producer topic event_id w r).1.producer_state)
  after_publish_sent event_id w (raise ex, p) e = absurd (ground arith)
  after_publish_sent event_id w (ok tt, p) e = refl

  publish_event-IsSent :
      (event_id : String) (w : World codec encoder http producer topic) (event : Json)
      → (publish_event codec encoder http producer topic event_id w event).0
        ≡ respond 202 (accepted event_id)
      → IsSent event_id w event (publish_event codec encoder http producer topic event_id w event)
  publish_event-IsSent event_id w (dict fields) e = record {
    fields = fields;
    event_dict = refl;
    sent = after_publish_sent event_id w _ e;
  }
  publish_event-IsSent event_id w _ e = cc

  after_fetch-IsRepublished :
      (event_id : String) (w : World codec encoder http producer topic)
      (r : Result ClientError Json × Client × http.State)
      → get_event codec http event_id w.client w.http_state ≡ r
      → (after_fetch codec encoder http producer topic event_id w r).0
        ≡ respond 202 (accepted event_id)
      → IsRepublished event_id w (after_fetch codec encoder http producer topic event_id w r)
  after_fetch-IsRepublished event_id w (raise ex, c, h) got e =
      absurd (on_client_error_refuses codec encoder http producer topic event_id ex _ e)
  after_fetch-IsRepublished event_id w (ok event, c, h) got e =
      let v = publish_event-IsSent event_id (record w { client = c; http_state = h }) event e in
      record {
        fields = v.fields;
        fetched = ap (λ r. r.0) got ∙ ap (λ x. ok x) v.event_dict;
        sent = v.sent;
      }

  -- An accepted replay has fetched an event from event-api and has published the envelope with the
  -- event's id and payload, on the topic and under the id as the key, and the producer is as that
  -- publication left it.
  pub replay-IsRepublished :
      (configured : Bool) (event_id : String) (w : World codec encoder http producer topic)
      → (replay codec encoder http producer topic configured event_id w).0
        ≡ respond 202 (accepted event_id)
      → IsRepublished event_id w (replay codec encoder http producer topic configured event_id w)
  unfolding replay
  replay-IsRepublished false event_id w e = absurd (ground arith)
  replay-IsRepublished true event_id w e =
      after_fetch-IsRepublished event_id w (get_event codec http event_id w.client w.http_state)
        refl e

-- Once a message has been processed, the status endpoint reports the event that the consumer found in
-- it as processed, with the key and the time: if the object store is lawful, the consumer's look at a
-- body finds an id, and `process` of the body returns a key.
pub event_status-process :
    (codec : Codec) (xml : XmlCodec) (minio : Minio) (bucket : String)
    → IsLawful minio
    → (generated : String) (now : DateTime) (raw : Option (List ℕ)) (s : minio.State)
      (store : EventStore) (event_id key : String)
    → peek_event_id codec raw ≡ ok (some event_id)
    → (process codec xml minio bucket generated now raw s store).0 ≡ ok key
    → event_status (process codec xml minio bucket generated now raw s store).2 event_id
      ≡ respond 200 (is_processed (some key) (some now))
unfolding event_status
event_status-process codec xml minio bucket lawful generated now raw s store event_id key p e =
    rw (process-peek codec xml minio bucket lawful generated now raw s store event_id key p e).1
      refl

-- A replayed event is stored over the object that it had: if an envelope with a non-empty id survives
-- its encoding and decoding, the object store is lawful, and `process` of the encoded envelope returns
-- a key, then the key is that of the id, and the status endpoint reports the event as processed.
pub process-envelope :
    (codec : Codec) (encoder : Encoder) (http : Http) (producer : Producer) (topic : String)
    (xml : XmlCodec) (minio : Minio) (bucket : String)
    → IsLawful minio
    → (event_id : String) (payload : Json) → event_id ≢ ""
    → IsInverse codec encoder (envelope codec encoder http producer topic event_id payload)
    → (generated : String) (now : DateTime) (s : minio.State) (store : EventStore) (key : String)
    → (process codec xml minio bucket generated now
        (some (value_of codec encoder http producer topic event_id payload))
        s
        store).0
      ≡ ok key
    → (key ≡ object_key event_id)
      × (event_status
            (process codec xml minio bucket generated now
              (some (value_of codec encoder http producer topic event_id payload))
              s
              store).2
            event_id
          ≡ respond 200 (is_processed (some key) (some now)))
process-envelope codec encoder http producer topic xml minio bucket lawful event_id payload h
      inverse generated now s store key e =
    let raw = some (value_of codec encoder http producer topic event_id payload) in
    let peeked = peek-value_of codec encoder http producer topic event_id payload h inverse in
    (
      (process-peek codec xml minio bucket lawful generated now raw s store event_id key peeked
          e).0,
      event_status-process codec xml minio bucket lawful generated now raw s store event_id key
          peeked e,
    )

unhealthy_refuted : (report other : Api.Body) → respond 503 report ≢ respond 200 other
unhealthy_refuted report other e = ground arith

-- The service answers 200, with both probes good, exactly if Kafka gave metadata and the look at the
-- bucket did not raise, whatever the answer about the bucket was.
pub health_endpoint-healthy :
    {Metadata : Type 0} (text : Exception → String) (kafka : Result Exception (Option Metadata))
    (minio : Result Exception Bool)
    → (health_endpoint (kafka_reachable text kafka) (minio_reachable text minio)
        ≡ respond 200 (health_report true (true, "ok") (true, "ok")))
      ↔ (((metadata : Metadata) × (kafka ≡ ok (some metadata)))
          × ((found : Bool) × (minio ≡ ok found)))
unfolding health_endpoint kafka_reachable minio_reachable
health_endpoint-healthy text (ok (some metadata)) (ok found) =
    (λ h. ((metadata, refl), (found, refl)), λ h. refl)
health_endpoint-healthy text (ok (some metadata)) (raise ex) =
    (λ h. absurd (unhealthy_refuted _ _ h), λ h. cc (h.1.1))
health_endpoint-healthy text (ok none) minio =
    (λ h. absurd (unhealthy_refuted _ _ h), λ h. cc (h.0.1))
health_endpoint-healthy text (raise ex) minio =
    (λ h. absurd (unhealthy_refuted _ _ h), λ h. cc (h.0.1))
