-- ===== src/Api.antt =====
-- event_processor/api.py: the handlers of the HTTP endpoints, over the event store, the client of
-- event-api and the Kafka publisher. A handler that raises what it does not catch ends in `crashed`.
pub mod Laws
pub mod RoundTrip
use event_pipeline_extension.Prelude.{
  ℕ, String, ◌<>◌, Bool, true, false, ◌&&◌, Option, none, some, List, if◌then◌else◌,
}
use event_pipeline_extension.Prelude.Result.{Result, ok, raise}
use event_pipeline_extension.Errors.{Exception, attribute_error}
use event_pipeline_extension.Json
use event_pipeline_extension.Json.{Json, dict, field, end, str}
use event_pipeline_extension.EventId.{Codec}
use event_pipeline_extension.Store.{
  EventStore, EventRecord, DateTime, pending, processed, lookup, mark_pending,
}
use event_pipeline_extension.Client.{
  ClientError, event_not_found, auth_error, upstream_error, escaped, Http, Client, get_event,
}
use event_pipeline_extension.Publisher.{Producer, publish}

-- The bodies of the responses. `detail` is that of an `HTTPException`.
pub data Body : Type 0 where
  detail : String → Body
  is_pending : Body
  is_processed : Option String → Option DateTime → Body
  accepted : String → Body
  health_report : Bool → Bool × String → Bool × String → Body

pub data Response : Type 0 where
  respond : ℕ → Body → Response
  crashed : Exception → Response

-- `health_endpoint`: the outcomes of the two probes, and 200 only if both are good.
unfoldable pub health_endpoint : Bool × String → Bool × String → Response
health_endpoint kafka minio =
    let healthy = kafka.0 && minio.0 in
    if healthy
    then respond 200 (health_report healthy kafka minio)
    else respond 503 (health_report healthy kafka minio)

abbrev pub status_of : Option EventRecord → Response
status_of none = respond 404 (detail "Event not seen by processor")
status_of (some r) = elim r.status [
  | processed ↦ respond 200 (is_processed r.object_key r.processed_at)
  | pending ↦ respond 200 is_pending
]

unfoldable pub event_status : EventStore → String → Response
event_status store event_id = status_of (lookup store event_id)

-- `json.dumps` and `str.encode`.
pub record Encoder : Type 0 where
  pub dumps : Json → String
  pub encode : String → List ℕ

module _ (codec : Codec) (encoder : Encoder) (http : Http) (producer : Producer)
    (topic : String) where
  -- What the handler shares with the other threads.
  pub record World : Type 0 where
    pub store : EventStore
    pub client : Client
    pub http_state : http.State
    pub producer_state : producer.State

  -- The envelope that event-api produces: the id and the payload.
  abbrev pub envelope : String → Json → Json
  envelope event_id payload = dict (field "id" (str event_id) (field "payload" payload end))

  -- The responses to the exceptions of `get_event`.
  abbrev pub on_client_error : String → ClientError → Response
  on_client_error event_id event_not_found =
      respond 404 (detail ("Event " <> event_id <> " not found in event-api"))
  on_client_error event_id auth_error =
      respond 502 (detail "event-api auth failure; replay cannot proceed")
  on_client_error event_id upstream_error = respond 502 (detail "event-api unavailable")
  on_client_error event_id (escaped ex) = crashed ex

  abbrev pub after_publish :
      String → World → Result Exception (Unit {0}) × producer.State → Response × World
  after_publish event_id w (raise ex, p) =
      (respond 502 (detail "Failed to enqueue replay onto Kafka"), record w { producer_state = p })
  after_publish event_id w (ok _, p) = (
    respond 202 (accepted event_id),
    record w { producer_state = p; store = mark_pending event_id w.store },
  )

  -- `event.get("payload")`, the envelope, and its publication.
  abbrev pub publish_event : String → World → Json → Response × World
  publish_event event_id w (dict fields) =
      let value = encoder.encode (encoder.dumps (envelope event_id (Json.get "payload" fields))) in
      after_publish event_id w
        (publish encoder.encode producer topic event_id value w.producer_state)
  publish_event event_id w _ = (crashed attribute_error, w)

  abbrev pub after_fetch :
      String → World → Result ClientError Json × Client × http.State → Response × World
  after_fetch event_id w (raise ex, c, h) =
      (on_client_error event_id ex, record w { client = c; http_state = h })
  after_fetch event_id w (ok event, c, h) =
      publish_event event_id (record w { client = c; http_state = h }) event

  -- `replay`; `configured` says that both the client and the publisher were given.
  unfoldable pub replay : Bool → String → World → Response × World
  replay false event_id w = (respond 503 (detail "Replay is not configured on this instance"), w)
  replay true event_id w =
      after_fetch event_id w (get_event codec http event_id w.client w.http_state)
