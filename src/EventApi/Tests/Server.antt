-- ===== src/EventApi/Tests/Server.antt =====
-- The processor's client and its replay at a running service.
use event_pipeline_extension.Prelude.{
  String, ◌≡◌, refl, inl, Option, none, some, List, [], ◌∷◌, ◌==◌, string_eq, arith, if◌then◌else◌,
}
use event_pipeline_extension.Prelude.Result.{ok}
use event_pipeline_extension.Json.{dict, end}
use event_pipeline_extension.Client.{Client, get_event}
use event_pipeline_extension.EventApi.{json_response}
use event_pipeline_extension.EventApi.Events.{response_json}
use event_pipeline_extension.EventApi.Security.{Principal, Logins}
use event_pipeline_extension.EventApi.Security.Laws.{bearer}
use event_pipeline_extension.EventApi.Server.{Deployment, Server, server}
use event_pipeline_extension.EventApi.Server.Laws.{
  IsConnected, outcome, found, get_event-find_by_id,
}
use event_pipeline_extension.EventApi.Tests.{
  rows_in_memory, sent_values, mapper, platform, jwt, jwt-IsVerifying, marks_full,
}
use event_pipeline_extension.EventApi.Tests.Events.{created}
use event_pipeline_extension.Tests.Endpoints.{codec}

abbrev login_of : String → String → Option Principal
login_of username password = if password == "secret" then some (bearer "alice" "USER") else none

abbrev logins : Logins
logins = record {
  authenticate = login_of;
  instant_text = λ n. "1970-01-01T00:00:01Z";
  violation = λ username password. none;
  expiration_ms = 1000;
}

abbrev path_of : String → List String
path_of url =
    if url == "http://api/auth/login"
    then "auth" ∷ "login" ∷ []
    else if url == "http://api/events/evt-1"
    then "events" ∷ "evt-1" ∷ []
    else []

abbrev pub deployment : Deployment
deployment = record {
  platform = platform;
  repository = rows_in_memory;
  mapper = mapper;
  template = sent_values;
  jwt = jwt;
  logins = logins;
  clock = λ n. 0;
  path_of = path_of;
  others = λ path. json_response 404 (dict end);
  transfer = λ v. ok v;
}

abbrev pub client : Client
client = record { base_url = "http://api"; username = "alice"; password = "secret"; token = none }

pub connected : IsConnected deployment client "evt-1" "alice" "USER"
connected = record {
  login_path = refl;
  event_path = refl;
  uuid = refl;
  valid = refl;
  known = refl;
  may_read = inl refl;
  verifying = jwt-IsVerifying;
  full = λ issued expires. marks_full expires;
  prompt = λ n. omega arith;
  transferred = λ v. refl;
}

abbrev pub running : Server deployment
running = record { world = created; requests = 0 }

get_event-find_by_id_example :
    (get_event codec (server deployment) "evt-1" client running).0
    ≡ outcome
        (found codec deployment client "evt-1" "alice" "USER" connected running)
        (response_json platform)
get_event-find_by_id_example =
    get_event-find_by_id codec deployment client "evt-1" "alice" "USER" connected running
      (λ token held. absurd (cc held))

abbrev stranger : Client
stranger = record { base_url = "http://api"; username = "alice"; password = "guess"; token = none }
