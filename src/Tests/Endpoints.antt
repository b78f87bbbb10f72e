-- ===== src/Tests/Endpoints.antt =====
-- Runs of the endpoints and of the client of event-api.
use event_pipeline_extension.Prelude.{
  ℕ, String, ◌≡◌, ◌⊎◌, refl, Bool, true, false, some, List, [], ◌∷◌, arith, string_eq,
  if◌then◌else◌,
}
use event_pipeline_extension.Prelude.Result.{ok, raise}
use event_pipeline_extension.Errors.{Exception, json_decode_error}
use event_pipeline_extension.Dict as Dict
use event_pipeline_extension.Json as Json
use event_pipeline_extension.Json.{Json, dict, field, end, str, null}
use event_pipeline_extension.EventId.{
  Codec, str_of, peek_event_id, peek_value, extract_event_id, find_candidate,
}
use event_pipeline_extension.Store.{
  EventStore, mark_pending, mark_processed, lookup, processed_record,
}
use event_pipeline_extension.Client.{
  Http, Client, response, get_event, do_get, read_event, read_token, login_and_cache,
  token_or_login,
}
use event_pipeline_extension.Client.Laws.{counted}
use event_pipeline_extension.Publisher.{Producer, publish}
use event_pipeline_extension.Health.{kafka_reachable, minio_reachable}
use event_pipeline_extension.Api.{
  respond, crashed, accepted, is_pending, health_report, health_endpoint, event_status, Encoder,
  World, replay,
}
use event_pipeline_extension.Processor.{process, render, parse}
use event_pipeline_extension.Api.Laws.{IsAccepted, IsRefused, replay-Verdict, replay_bad_body}

unfoldable pub program : Unit {0}
unfolding peek_event_id peek_value extract_event_id find_candidate process render parse Dict.get
    Dict.put Json.get Json.truthy str_of mark_pending mark_processed lookup get_event do_get
    read_event read_token login_and_cache token_or_login publish health_endpoint event_status replay
    kafka_reachable minio_reachable
program = tt

abbrev pub codec : Codec
codec = record { decode = λ raw. ok ""; loads = λ text. ok null; repr = λ v. "" }

abbrev pub encoder : Encoder
encoder = record { dumps = λ v. ""; encode = λ text. [] }

-- A server whose tokens are good for one fetch only: the state is the number of logins since the
-- last fetch, and a fetch without one is answered by 401.
abbrev pub server : Http
server = record {
  State = Bool;
  post = λ s url credentials. (response 200 (ok (dict (field "token" (str "t") end))), true);
  get = λ s url token. (
    if s then response 200 (ok (dict (field "payload" (dict end) end))) else response 401 (ok null),
    false,
  );
}

abbrev pub client : Client
client = record {
  base_url = "http://localhost:8080";
  username = "user";
  password = "p";
  token = some (str "old");
}

abbrev start : (counted server).State
start = record { inner = false; logins = 0; fetches = 0 }

-- The old token is refused, and the fetch is made again with a new one.
refreshed :
    ((get_event codec (counted server) "evt-1" client start).1.token ≡ some (str "t"))
    × ((get_event codec (counted server) "evt-1" client start).2
        ≡ record { inner = false; logins = 1; fetches = 2 })
unfolding program
refreshed = (refl, refl)

abbrev fetched : Json
fetched = dict (field "payload" (dict end) end)

-- A producer that notes the values, and flushes all of them.
abbrev pub broker : Producer
broker = record {
  State = List (List ℕ);
  produce = λ p topic key value. (ok tt, value ∷ p);
  flush = λ p. (ok 0, p);
}

abbrev pub store : EventStore
store = ("evt-1", processed_record "evt-1" "evt-1.xml" 7) ∷ []

abbrev pub world : World codec encoder server broker "events"
world = record { store = store; client = client; http_state = false; producer_state = [] }

replay_accepted :
    (replay codec encoder server broker "events" true "evt-2" world).0
    ≡ respond 202 (accepted "evt-2")
unfolding program
replay_accepted = refl

replayed_is_pending :
    event_status (replay codec encoder server broker "events" true "evt-2" world).1.store "evt-2"
    ≡ respond 200 is_pending
unfolding program
replayed_is_pending = refl

replay-Verdict_example :
    IsAccepted codec encoder server broker "events" "evt-2" world
      (replay codec encoder server broker "events" true "evt-2" world)
    ⊎ IsRefused codec encoder server broker "events" world
        (replay codec encoder server broker "events" true "evt-2" world)
replay-Verdict_example = replay-Verdict codec encoder server broker "events" true "evt-2" world

-- A proxy that answers every fetch by a page that is no JSON.
abbrev proxy : Http
proxy = record {
  State = Unit {0};
  post = λ s url credentials. (response 200 (ok (dict (field "token" (str "t") end))), tt);
  get = λ s url token. (response 200 (raise json_decode_error), tt);
}

abbrev behind_proxy : World codec encoder proxy broker "events"
behind_proxy = record { store = store; client = client; http_state = tt; producer_state = [] }

replay_bad_body_example :
    (replay codec encoder proxy broker "events" true "evt-2" behind_proxy).0
    ≡ crashed json_decode_error
unfolding program
replay_bad_body_example =
    replay_bad_body codec encoder proxy broker "events" "evt-2" behind_proxy (str "old") 200
      json_decode_error refl refl (omega arith)

-- The service is healthy although the bucket does not exist.
no_bucket_is_healthy :
    (show : Exception → String)
    → health_endpoint
        (kafka_reachable {Metadata = ℕ} show (ok (some 0)))
        (minio_reachable show (ok false))
      ≡ respond 200 (health_report true (true, "ok") (true, "ok"))
unfolding program
no_bucket_is_healthy show = refl
