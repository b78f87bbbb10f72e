-- ===== src/EventApi/Tests/Replays.antt =====
-- The replay of an event that was created.
use event_pipeline_extension.Prelude.{◌≡◌, ◌↔◌, ◌∷◌, refl, none, some, true, [], string_eq}
use event_pipeline_extension.Prelude.Result.{ok}
use event_pipeline_extension.Json as Json
use event_pipeline_extension.EventId.{str_of}
use event_pipeline_extension.Client.{
  get_event, token_or_login, login_and_cache, do_get, read_token, read_event,
}
use event_pipeline_extension.Publisher.{publish}
use event_pipeline_extension.Store.{mark_pending, mark_processed}
use event_pipeline_extension.Dict as Dict
use event_pipeline_extension.Api.{World, respond, accepted, replay}
use event_pipeline_extension.EventApi.{handle}
use event_pipeline_extension.EventApi.Events.{
  create_event, delete_by_id, find_by_id, to_response, get_by_id, message,
}
use event_pipeline_extension.EventApi.Security.{authorize, authenticate, strip_prefix, login}
use event_pipeline_extension.EventApi.Server.{Server, server, handle_login, handle_read}
use event_pipeline_extension.EventApi.Events.History.{run, perform}
use event_pipeline_extension.EventApi.Replays.{replay-create_event}
use event_pipeline_extension.EventApi.Tests.{
  rows_in_memory, rows_in_memory-IsLawful, sent_values, mapper, platform,
}
use event_pipeline_extension.EventApi.Tests.Events.{
  start, created, create_first, created_there, empty_body, first, others, other_calls,
}
use event_pipeline_extension.EventApi.Tests.Server.{deployment, client, connected}
use event_pipeline_extension.Tests.Endpoints.{codec, encoder, broker}

-- The service after the calls that followed the creation.
abbrev later : Server deployment
later = record {
  world = run platform rows_in_memory mapper sent_values others created;
  requests = 2;
}

abbrev world : World codec encoder (server deployment) broker "events"
world = record { store = []; client = client; http_state = later; producer_state = [] }

replayed :
    (replay codec encoder (server deployment) broker "events" true "evt-1" world).0
    ≡ respond 202 (accepted "evt-1")
unfolding run perform create_event delete_by_id str_of get_event token_or_login login_and_cache
    do_get read_token read_event publish mark_pending mark_processed Dict.get Dict.put Json.get
    Json.truthy replay handle find_by_id to_response get_by_id authorize authenticate strip_prefix
    login handle_login handle_read
replayed = refl

replay-create_event_example :
    (publish encoder.encode broker "events" "evt-1"
        (encoder.encode
          (encoder.dumps (message platform rows_in_memory mapper sent_values "evt-1" none)))
        []
      ≡ (ok tt, [] ∷ []))
    ↔ (((replay codec encoder (server deployment) broker "events" true "evt-1" world).0
          ≡ respond 202 (accepted "evt-1"))
        × ((replay codec encoder
              (server deployment)
              broker
              "events"
              true
              "evt-1"
              world).1.producer_state
            ≡ [] ∷ []))
unfolding run perform create_event delete_by_id
replay-create_event_example =
    replay-create_event codec encoder deployment broker "events" rows_in_memory-IsLawful "evt-1"
      "alice" "USER" 7 none start created (ok "evt-1") create_first refl created_there others
      other_calls (some first) refl empty_body world refl connected (λ token held. absurd (cc held))
      ([] ∷ [])
