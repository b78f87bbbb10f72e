-- ===== src/Client/Sharing.antt =====
-- Several threads in `get_event` of one `EventApiClient` (event_processor/event_api_client.py), as the
-- replay endpoint has them. A thread steps from one use of what is shared to the next: a section under
-- the lock of the token, or a request.
pub mod Alone
pub mod Ends
pub mod Counts
pub mod Issued
pub mod Safety
mod Tests
use event_pipeline_extension.Prelude.{
  ℕ, ◌+◌, String, ◌<>◌, Bool, true, false, not, ◌&&◌, Option, none, some, List, [], ◌∷◌,
  if◌then◌else◌, nat_beq,
}
use event_pipeline_extension.Prelude.Result.{Result, ok, raise}
use event_pipeline_extension.Json.{Json}
use event_pipeline_extension.EventId.{Codec}
use event_pipeline_extension.Pool.{update}
use event_pipeline_extension.Client.{
  Reply, ClientError, Http, Client, read_token, cache_token, do_get, read_event, is_unauthorized,
}

-- Where a thread stands in `get_event`: at the look at the cached token, at the post of a login, at
-- the write of its token, at the request for the event, or returned. The flag says that a request was
-- answered by 401 before.
pub data Place : Type 0 where
  checking : Place
  logging_in : Bool → Place
  caching fetching : Bool → Json → Place
  returned : Result ClientError Json → Place

-- A call of `get_event`, with the numbers of its requests so far.
pub record Call : Type 0 where
  pub event_id : String
  pub place : Place
  pub logins : ℕ
  pub fetches : ℕ

module _ (codec : Codec) (http : Http) where
  abbrev pub after_check : Option Json → Place
  after_check (some token) = fetching false token
  after_check none = logging_in false

  abbrev pub after_login : Bool → Result ClientError Json → Place
  after_login again (ok token) = caching again token
  after_login again (raise ex) = returned (raise ex)

  abbrev pub after_fetch : Bool → Reply → Place
  after_fetch again reply =
      if is_unauthorized codec http reply && not again
      then logging_in true
      else returned (read_event codec http reply)

  -- One step of a thread.
  unfoldable pub advance : String → Place → Client → http.State → Place × Client × http.State
  advance event_id checking c h = (after_check c.token, c, h)
  advance event_id (logging_in again) c h =
      let (reply, h') = http.post h (c.base_url <> "/auth/login") (c.username, c.password) in
      (after_login again (read_token codec http reply), c, h')
  advance event_id (caching again token) c h =
      (fetching again token, cache_token codec http (ok token) c, h)
  advance event_id (fetching again token) c h =
      let (reply, h') = do_get codec http event_id token c h in (after_fetch again reply, c, h')
  advance event_id (returned r) c h = (returned r, c, h)

  -- The calls, what they share, and the tokens that their logins have returned.
  pub record Shared : Type 0 where
    pub client : Client
    pub http_state : http.State
    pub calls : ℕ → Call
    pub issued : List Json

  abbrev pub init : Client → http.State → (ℕ → String) → Shared
  init client http_state names = record {
    client = client;
    http_state = http_state;
    calls = λ i. record { event_id = names i; place = checking; logins = 0; fetches = 0 };
    issued = [];
  }

  -- The requests of a step.
  abbrev pub is_login : Place → ℕ
  is_login (logging_in again) = 1
  is_login _ = 0

  abbrev pub is_fetch : Place → ℕ
  is_fetch (fetching again token) = 1
  is_fetch _ = 0

  -- A login has returned a token where its thread goes on to write it.
  abbrev pub note_token : Place → List Json → List Json
  note_token (caching again token) issued = token ∷ issued
  note_token _ issued = issued

  -- A step of the call `i`.
  unfoldable pub move : ℕ → Shared → Shared
  unfolding advance
  move i s =
      let call = s.calls i in
      let (place, client, http_state) = advance call.event_id call.place s.client s.http_state in
      record {
        client = client;
        http_state = http_state;
        calls = update s.calls i (record call {
          place = place;
          logins = call.logins + is_login call.place;
          fetches = call.fetches + is_fetch call.place;
        });
        issued = note_token place s.issued;
      }

  -- Every state that the calls can get into.
  pub data Reach (client : Client) (http_state : http.State) (names : ℕ → String)
      : Shared → Type 0 where
    begun : Reach client http_state names (init client http_state names)
    moves :
        {s : Shared} (i : ℕ)
        → Reach client http_state names s
        → Reach client http_state names (move i s)
