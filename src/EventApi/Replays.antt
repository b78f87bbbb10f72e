-- ===== src/EventApi/Replays.antt =====
-- event-api and the processor together: a replay publishes what the creation of the event published.
use mathlib.Core.Path.{subst}
use event_pipeline_extension.Prelude.{
  ℕ, String, ◌≡◌, ◌≢◌, ◌↔◌, refl, sym, ap, ◌∙◌, Option, none, some, true, List, All,
}
use event_pipeline_extension.Prelude.Result.{Result, ok, raise}
use event_pipeline_extension.Json
use event_pipeline_extension.Json.{Json, Fields, dict, null}
use event_pipeline_extension.EventId.{Codec}
use event_pipeline_extension.Client.{ClientError, Client, get_event}
use event_pipeline_extension.Publisher.{Producer, publish}
use event_pipeline_extension.Api.{Response, after_fetch, respond, accepted, Encoder, replay}
use event_pipeline_extension.Api as Api
use event_pipeline_extension.Api.RoundTrip.{value_of, replay-IsRepublished}
use event_pipeline_extension.EventApi.{Event, ApiException}
use event_pipeline_extension.EventApi.Events.{
  IsLawful, World, create_event, payload_of, message, response_json,
}
use event_pipeline_extension.EventApi.Events.Laws.{created_response}
use event_pipeline_extension.EventApi.Events.History.{Call, about, run, find_by_id-run}
use event_pipeline_extension.EventApi.Security.{denied}
use event_pipeline_extension.EventApi.Server.{Deployment, Server, server}
use event_pipeline_extension.EventApi.Server.Laws.{IsConnected, decision, get_event-find_by_id}

abbrev payload_field : Result ClientError Json → Json
payload_field (ok (dict fields)) = Json.get "payload" fields
payload_field _ = null

module _ (codec : Codec) (encoder : Encoder) (d : Deployment) (producer : Producer) (topic : String)
    (lawful : IsLawful d.repository) (id username role : String) (now : ℕ) (body : Option Fields)
    (before after : World d.platform d.repository d.mapper d.template)
    (outcome : Result ApiException String)
    (created : create_event d.platform d.repository d.mapper d.template id now body before
      ≡ (outcome, after))
    (new : d.repository.row before.db id ≡ none) (there : d.repository.row after.db id ≢ none)
    (calls : List Call) (apart : All (λ c. id ≢ about c) calls) (o : Option Event)
    (read : d.repository.find_by_id
        (run d.platform d.repository d.mapper d.template calls after).db
        id
      ≡ ok o)
    (inverse : (text : String)
      → d.mapper.write (payload_of d.platform d.repository d.mapper d.template body) ≡ ok text
      → d.mapper.read_tree text ≡ ok (payload_of d.platform d.repository d.mapper d.template body))
    (w : Api.World codec encoder (server d) producer topic)
    (current : w.http_state.world ≡ run d.platform d.repository d.mapper d.template calls after)
    (k : IsConnected d w.client id username role)
    (usable : (token : Json)
      → w.client.token ≡ some token
      → decision codec d w.client id username role k w.http_state token ≢ denied) where
  -- The client fetches the created event.
  fetched :
      (get_event codec (server d) id w.client w.http_state).0
      ≡ ok (
          response_json d.platform
            (created_response d.platform d.repository d.mapper d.template id now body))
  fetched =
      get_event-find_by_id codec d w.client id username role k w.http_state usable
      ∙ rw
          (
            current,
            find_by_id-run d.platform d.repository d.mapper d.template lawful id now body before
                after outcome calls o inverse created new there apart read,
          )
          refl

  -- What the creation gave Kafka as the value of its message, as a replay encodes it.
  abbrev pub created_value : List ℕ
  created_value =
      encoder.encode (encoder.dumps (message d.platform d.repository d.mapper d.template id body))

  Accepts : producer.State → Response × Api.World codec encoder (server d) producer topic → Type 0
  Accepts p r = (r.0 ≡ respond 202 (accepted id)) × (r.1.producer_state ≡ p)

  fetched_accepted :
      (r : Result ClientError Json × Client × Server d) (p : producer.State)
      → r.0
        ≡ ok (
            response_json d.platform
              (created_response d.platform d.repository d.mapper d.template id now body))
      → publish encoder.encode producer topic id created_value w.producer_state ≡ (ok tt, p)
      → Accepts p (after_fetch codec encoder (server d) producer topic id w r)
  unfolding Json.get Accepts
  fetched_accepted (raise ex, c, h) p got sent = cc
  fetched_accepted (ok event, c, h) p got sent =
      let same : event
          ≡ response_json d.platform
              (created_response d.platform d.repository d.mapper d.template id now body) =
        cc in
      rw (same, sent) (refl, refl)

  published_only :
      (replay codec encoder (server d) producer topic true id w).0 ≡ respond 202 (accepted id)
      → publish encoder.encode producer topic id created_value w.producer_state
        ≡ (ok tt, (replay codec encoder (server d) producer topic true id w).1.producer_state)
  unfolding Json.get
  published_only e =
      let v = replay-IsRepublished codec encoder (server d) producer topic true id w e in
      let same : Json.get "payload" v.fields
          ≡ payload_of d.platform d.repository d.mapper d.template body =
        ap payload_field (sym v.fetched ∙ fetched) in
      subst
        (λ payload.
          publish encoder.encode producer topic id
            (value_of codec encoder (server d) producer topic id payload) w.producer_state
          ≡ (ok tt, (replay codec encoder (server d) producer topic true id w).1.producer_state))
        same v.sent

  -- A replay publishes the message of the creation, also if its send raised: if the id was new and
  -- `create_event` has stored the event, any calls about other events followed, the repository is lawful, its read does not raise, the body survives Jackson's
  -- writing and reading, and the client speaks to the service, then a replay is accepted and leaves
  -- the producer in a state exactly if the publication of the message that `create_event` made of the
  -- body, under the same id, returns and leaves the producer so.
  pub replay-create_event :
      (p : producer.State)
      → (publish encoder.encode producer topic id created_value w.producer_state ≡ (ok tt, p)) ↔ (
          ((replay codec encoder (server d) producer topic true id w).0 ≡ respond 202 (accepted id))
          × ((replay codec encoder (server d) producer topic true id w).1.producer_state ≡ p))
  unfolding replay Accepts
  replay-create_event p = (
    λ sent. fetched_accepted (get_event codec (server d) id w.client w.http_state) p fetched sent,
    λ (answer, state). published_only answer ∙ ap (λ q. (ok tt, q)) state,
  )
