-- ===== src/EventApi/Server/Laws.antt =====
-- What the processor's client gets from event-api.
use event_pipeline_extension.Prelude.{
  ℕ, ◌+◌, ◌≤◌, String, ◌<>◌, ◌≡◌, ◌≢◌, ◌⊎◌, refl, inl, inr, Option, none, some, [], ◌∷◌, true,
  false, arith, ◌==◌, string_eq, nat_eq, eq_law, Bool-cases,
}
use event_pipeline_extension.Prelude.Result.{Result, ok, raise}
use event_pipeline_extension.Json
use event_pipeline_extension.Json.{Json, str, truthy}
use event_pipeline_extension.EventId.{Codec, str_of}
use event_pipeline_extension.Client as Client
use event_pipeline_extension.Client.{
  ClientError, auth_error, upstream_error, Client, Http, Reply, read_token, read_event,
  is_unauthorized, get_event, token_or_login, login_and_cache, do_get, request_with, retry_with,
  token_from, cache_token,
}
use event_pipeline_extension.EventApi.{
  Event, ApiException, event_not_found, invalid_credentials, type_mismatch, not_readable,
  illegal_argument, validation, unexpected, handle,
}
use event_pipeline_extension.EventApi.Events.{
  EventResponse, response_json, respond_event, find_by_id, get_by_id, after_find, to_response,
  response_of,
}
use event_pipeline_extension.EventApi.Security.{
  get, authorize, authenticate, IsVerifying, Decision, permitted, unauthenticated, denied, login,
  issued_response,
}
use event_pipeline_extension.EventApi.Security.Laws.{
  bearer, authenticate-sign, authorize-bearer, login-bearer,
}
use event_pipeline_extension.EventApi.Server.{
  Deployment, Server, reply_of, handle_login, handle_read, server,
}

-- What the client makes of the outcome of the service's `findById`.
abbrev pub outcome :
    (Result ApiException EventResponse) → (EventResponse → Json) → Result ClientError Json
outcome (ok r) json = ok (json r)
outcome (raise (event_not_found id)) json = raise Client.event_not_found
outcome (raise _) json = raise upstream_error

-- The client speaks to this service about this event: its URLs lead to the login and to the event, its
-- credentials are those of a user with a role that may read, the bodies arrive, and each request comes
-- while a token of the request before it is valid.
pub record IsConnected (d : Deployment) (c : Client) (id username role : String) : Type 0 where
  pub login_path : d.path_of (c.base_url <> "/auth/login") ≡ "auth" ∷ "login" ∷ []
  pub event_path : d.path_of (c.base_url <> "/events/" <> id) ≡ "events" ∷ id ∷ []
  pub uuid : d.platform.parse_uuid id ≡ ok id
  pub valid : d.logins.violation c.username c.password ≡ none
  pub known : d.logins.authenticate c.username c.password ≡ some (bearer username role)
  pub may_read : (role ≡ "USER") ⊎ (role ≡ "ADMIN")
  pub verifying : IsVerifying d.jwt username role
  pub full : (issued expires : ℕ) → d.jwt.sign username role issued expires ≢ ""
  pub prompt : (n : ℕ) → d.clock (n + 1) + 1000 ≤ d.clock n + d.logins.expiration_ms
  pub transferred : (v : Json) → d.transfer v ≡ ok v

module _ (codec : Codec) (d : Deployment) (c : Client) (id username role : String)
    (k : IsConnected d c id username role) where
  -- The outcome of the read.
  abbrev pub found : Server d → Result ApiException EventResponse
  found s = find_by_id d.platform d.repository d.mapper d.template id s.world

  abbrev expected : Server d → Result ClientError Json
  expected s = outcome (found s) (response_json d.platform)

  read_response :
      (timestamp : String) (r : Result ApiException EventResponse)
      → r ≢ raise invalid_credentials
      → let reply =
          reply_of d (respond_event d.platform d.repository d.mapper d.template timestamp r) in
        (read_event codec (server d) reply ≡ outcome r (response_json d.platform))
        × (is_unauthorized codec (server d) reply ≡ false)
  unfolding read_event handle
  read_response timestamp (ok r) h = (rw (k.transferred (response_json d.platform r)) refl, refl)
  read_response timestamp (raise (event_not_found j)) h = (refl, refl)
  read_response timestamp (raise invalid_credentials) h = absurd (h refl)
  read_response timestamp (raise (type_mismatch m)) h = (refl, refl)
  read_response timestamp (raise (not_readable m)) h = (refl, refl)
  read_response timestamp (raise (illegal_argument m)) h = (refl, refl)
  read_response timestamp (raise (validation m)) h = (refl, refl)
  read_response timestamp (raise (unexpected m)) h = (refl, refl)

  response_of_kind :
      (e : Event) (r : Result String Json) → response_of d.mapper e r ≢ raise invalid_credentials
  response_of_kind e (ok v) h = cc
  response_of_kind e (raise m) h = ground arith

  find_kind :
      (r : Result String (Option Event))
      → after_find d.platform d.repository d.mapper d.template id r ≢ raise invalid_credentials
  unfolding to_response
  find_kind (raise m) h = ground arith
  find_kind (ok none) h = ground arith
  find_kind (ok (some e)) h = response_of_kind e _ h

  found_kind : (s : Server d) → found s ≢ raise invalid_credentials
  unfolding find_by_id
  found_kind s = find_kind _

  -- The token of a login in this state.
  abbrev token_at : Server d → String
  token_at s =
      d.jwt.sign username role (d.clock s.requests) (d.clock s.requests + d.logins.expiration_ms)

  not_empty : (s : Server d) → (token_at s == "") ≡ false
  not_empty s = elim (Bool-cases (token_at s == "")) [
    | inl empty ↦ absurd (k.full _ _ ((eq_law (token_at s) "").0 empty))
    | inr full ↦ full
  ]

  login_reply :
      (s : Server d)
      → read_token codec (server d) (
          reply_of d
            (handle_login d s (d.path_of (c.base_url <> "/auth/login")) c.username c.password))
        ≡ ok (str (token_at s))
  unfolding handle_login read_token authenticate authorize Json.get Json.truthy
  login_reply s =
      let now = d.clock s.requests in
      let issued =
        login-bearer d.jwt d.logins c.username c.password username role now k.valid k.known in
      rw
        (
          k.login_path,
          issued,
          k.transferred (issued_response d.jwt d.logins username role now),
          not_empty s,
        )
        refl

  -- A permitted read is the service's.
  read_permitted :
      (s : Server d) (token : String)
      → authorize get
          ("events" ∷ id ∷ [])
          (authenticate d.jwt (some ("Bearer " <> token)) (d.clock s.requests))
        ≡ permitted
      → let reply =
          reply_of d
            (handle_read d s (d.path_of (c.base_url <> "/events/" <> id)) ("Bearer " <> token)) in
        (read_event codec (server d) reply ≡ expected s)
        × (is_unauthorized codec (server d) reply ≡ false)
  unfolding handle_read get_by_id
  read_permitted s token p = rw (k.event_path, p, k.uuid) (read_response _ (found s) (found_kind s))

  -- The read under the token of the request before.
  fresh_permitted :
      (s t : Server d)
      → t.requests ≡ s.requests + 1
      → authorize get
          ("events" ∷ id ∷ [])
          (authenticate d.jwt (some ("Bearer " <> token_at s)) (d.clock t.requests))
        ≡ permitted
  fresh_permitted s t later =
      let signed =
        authenticate-sign d.jwt username role k.verifying (d.clock s.requests)
          (d.clock s.requests + d.logins.expiration_ms) (d.clock t.requests) in
      rw (signed.0 (rw later (k.prompt s.requests)))
        (authorize-bearer (id ∷ []) username role k.may_read)

  abbrev logged_in : Server d → Client
  logged_in s = record c { token = some (str (token_at s)) }

  abbrev after : Server d → Server d
  after s = record s { requests = s.requests + 1 }

  login_done :
      (s : Server d)
      → login_and_cache codec (server d) c s ≡ (ok (str (token_at s)), logged_in s, after s)
  unfolding login_and_cache
  login_done s = rw (login_reply s) refl

  -- The read after a login.
  fresh_read :
      (s : Server d)
      → (retry_with codec (server d) id (ok (str (token_at s)), logged_in s, after s)).0
        ≡ expected s
  unfolding do_get str_of
  fresh_read s = (read_permitted (after s) (token_at s) (fresh_permitted s (after s) refl)).0

  fresh_request :
      (s : Server d)
      → (request_with codec (server d) id (ok (str (token_at s)), logged_in s, after s)).0
        ≡ expected s
  unfolding do_get str_of
  fresh_request s =
      let read = read_permitted (after s) (token_at s) (fresh_permitted s (after s) refl) in
      rw (read.1) read.0

  -- The read under a token that the client holds.
  abbrev pub decision : Server d → Json → Decision
  decision s token =
      authorize get ("events" ∷ id ∷ [])
        (authenticate d.jwt (some ("Bearer " <> str_of codec token)) (d.clock s.requests))

  refused_read :
      (s : Server d) (token : String)
      → authorize get
          ("events" ∷ id ∷ [])
          (authenticate d.jwt (some ("Bearer " <> token)) (d.clock s.requests))
        ≡ unauthenticated
      → is_unauthorized codec (server d) (
          reply_of d
            (handle_read d s (d.path_of (c.base_url <> "/events/" <> id)) ("Bearer " <> token)))
        ≡ true
  unfolding handle_read
  refused_read s token p = rw (k.event_path, p) refl

  held_request :
      (s : Server d) (token : Json) (x : Decision)
      → decision s token ≡ x
      → x ≢ denied
      → (request_with codec (server d) id (ok token, c, s)).0 ≡ expected s
  unfolding do_get
  held_request s token permitted e h =
      let read = read_permitted s (str_of codec token) e in rw (read.1) read.0
  held_request s token unauthenticated e h =
      rw (refused_read s (str_of codec token) e, login_done (after s)) (fresh_read (after s))
  held_request s token denied e h = absurd (h refl)

  token_cases :
      (s : Server d) (o : Option Json)
      → ((token : Json) → o ≡ some token → decision s token ≢ denied)
      → (request_with codec (server d) id (token_from codec (server d) o c s)).0 ≡ expected s
  token_cases s none usable = rw (login_done s) (fresh_request s)
  token_cases s (some token) usable =
      held_request s token (decision s token) refl (usable token refl)

  -- The processor's client against this service: whether it has no token, a valid one or one that has
  -- expired, if it is connected to the service and the service does not know its cached token as one of
  -- a role that may not read, then `get_event` gives what the service's `findById` gives, that is the
  -- response of the event, "not found" if there is no such event, and an upstream error otherwise.
  pub get_event-find_by_id :
      (s : Server d)
      → ((token : Json) → c.token ≡ some token → decision s token ≢ denied)
      → (get_event codec (server d) id c s).0 ≡ outcome (found s) (response_json d.platform)
  unfolding get_event token_or_login
  get_event-find_by_id s usable = token_cases s c.token usable

-- Credentials that event-api does not know: a client without a token raises `AuthError`.
pub get_event_unknown :
    (codec : Codec) (d : Deployment) (c : Client) (id : String)
    → d.path_of (c.base_url <> "/auth/login") ≡ "auth" ∷ "login" ∷ []
    → d.logins.violation c.username c.password ≡ none
    → d.logins.authenticate c.username c.password ≡ none
    → c.token ≡ none
    → (s : Server d) → (get_event codec (server d) id c s).0 ≡ raise auth_error
unfolding get_event token_or_login login_and_cache handle_login read_token authenticate authorize
    login handle
get_event_unknown codec d c id path valid unknown no_token s =
    rw (no_token, path, valid, unknown) refl
