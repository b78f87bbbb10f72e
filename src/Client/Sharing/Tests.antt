-- ===== src/Client/Sharing/Tests.antt =====
-- Two calls on one client, with steps in turn, and the theorems at them.
use event_pipeline_extension.Prelude.{
  ℕ, zero, suc, ◌+◌, ◌≤◌, String, ◌<>◌, ◌≡◌, refl, none, List, [], ◌∷◌, ◌==◌, nat_eq, string_eq,
  arith, length, if◌then◌else◌,
}
use event_pipeline_extension.Prelude.Result.{Result, ok, raise}
use event_pipeline_extension.Errors.{json_decode_error}
use event_pipeline_extension.Json as Json
use event_pipeline_extension.Json.{Json, dict, field, end, str}
use event_pipeline_extension.EventId.{Codec, str_of}
use event_pipeline_extension.Client.{
  response, ClientError, Http, Client, get_event, token_or_login, login_and_cache, do_get,
  read_token, read_event,
}
use event_pipeline_extension.Client.Sharing.{
  checking, returned, Shared, move, advance, Reach, begun, moves,
}
use event_pipeline_extension.Client.Sharing.Alone.{run, run-get_event}
use event_pipeline_extension.Client.Sharing.Counts.{spare}
use event_pipeline_extension.Client.Sharing.Ends.{after_states, call_returns}
use event_pipeline_extension.Client.Sharing.Issued.{IsAnswered}
use event_pipeline_extension.Client.Sharing.Safety.{shared_calls, shared_answer}

abbrev codec : Codec
codec = record { decode = λ raw. ok ""; loads = λ text. raise json_decode_error; repr = λ v. "" }

abbrev event : Json
event = dict (field "payload" (str "x") end)

-- The server issues the tokens "t0", "t1" and so on, and takes only the latest one.
abbrev token : ℕ → String
token zero = "t0"
token (suc n) = "t" <> token n

abbrev server : Http
server = record {
  State = ℕ;
  post = λ n url credentials. (response 200 (ok (dict (field "token" (str (token n)) end))), n + 1);
  get = λ n url given.
      (if token n == "t" <> given then response 200 (ok event) else response 401 (ok event), n);
}

abbrev client : Client
client = record { base_url = "http://event-api"; username = "u"; password = "p"; token = none }

abbrev names : ℕ → String
names i = if i == 0 then "evt-0" else "evt-1"

program : Unit {0}
unfolding move advance str_of get_event token_or_login login_and_cache do_get read_token read_event
    Json.get Json.truthy run after_states
program = tt

record Run : Type 0 where
  last : Shared codec server
  reach : Reach codec server client 0 names last

-- Both calls log in; the token of the first is refused, and it logs in again.
shared : Run
unfolding program
shared = record {
  last = _;
  reach = moves 0 (
      moves 0
        (moves 0 (moves 0 (moves 1 (moves 0 (moves 1 (moves 0 (moves 1 (moves 0 begun)))))))));
}

two_logins : ((shared.last.calls 0).logins ≡ 2) × ((shared.last.calls 1).logins ≡ 1)
unfolding shared
two_logins = (refl, refl)

shared_calls_example :
    ((shared.last.calls 0).logins ≤ spare client.token + 1) × ((shared.last.calls 0).fetches ≤ 2)
shared_calls_example = shared_calls codec server client shared.reach 0

shared_answer_example :
    IsAnswered codec server client shared.last.issued (shared.last.calls 0).event_id event
unfolding shared
shared_answer_example = shared_answer codec server client shared.reach 0 event refl

run-get_event_example : run codec server 7 "evt-0" (checking, client, 0) ≡ (
  returned (get_event codec server "evt-0" client 0).0,
  (get_event codec server "evt-0" client 0).1,
  (get_event codec server "evt-0" client 0).2,
)
run-get_event_example = run-get_event codec server "evt-0" client 0

-- Another call logs in before each step.
abbrev states : List (Client × ℕ)
states =
    (client, 0)
    ∷ (client, 1)
    ∷ (client, 2)
    ∷ (client, 3)
    ∷ (client, 4)
    ∷ (client, 5)
    ∷ (client, 6)
    ∷ []

seven_states : 7 ≤ length states
seven_states = omega arith

call_returns_example :
    (r : Result ClientError Json) × (after_states codec server "evt-0" checking states ≡ returned r)
call_returns_example = call_returns codec server "evt-0" states seven_states
