-- ===== src/Client.antt =====
-- event_processor/event_api_client.py: an HTTP client of event-api that logs in, caches the token,
-- and logs in once more when a request is answered by 401.
pub mod Laws
pub mod New
pub mod Sharing
use event_pipeline_extension.Prelude.{
  ℕ, String, ◌<>◌, ◌≡◌, Bool, true, false, not, Option, none, some, List, ◌==◌, nat_eq, leb,
  if◌then◌else◌,
}
use event_pipeline_extension.Prelude.Result.{Result, ok, raise}
use event_pipeline_extension.Errors.{Exception, attribute_error}
use event_pipeline_extension.Json
use event_pipeline_extension.Json.{Json, dict, truthy}
use event_pipeline_extension.EventId.{Codec, str_of}

-- The exceptions of the module, and those that it lets through.
pub data ClientError : Type 0 where
  event_not_found auth_error upstream_error : ClientError
  escaped : Exception → ClientError

-- What a request comes to: an `httpx.HTTPError`, another exception, as `httpx.InvalidURL`, or a
-- response with its status and the outcome of its `json()`.
pub data Reply : Type 0 where
  transport_error : Reply
  uncaught : Exception → Reply
  response : ℕ → Result Exception Json → Reply

-- The HTTP client with the server behind it: `post` of a URL and the credentials, and `get` of a URL
-- and the bearer token.
pub record Http : Type 1 where
  pub State : Type 0
  pub post : State → String → String × String → Reply × State
  pub get : State → String → String → Reply × State

pub record Client : Type 0 where
  pub base_url : String
  pub username : String
  pub password : String
  pub token : Option Json

module _ (codec : Codec) (http : Http) where
  -- A method returns or raises, with the client and the HTTP state that it leaves.
  abbrev pub Method : Type 0 → Type 0
  Method A = Client → http.State → Result ClientError A × Client × http.State

  -- `body.get("token")`, and the test on it.
  abbrev pub check_token : Json → Result ClientError Json
  check_token (dict fields) =
      let token = Json.get "token" fields in if truthy token then ok token else raise upstream_error
  check_token _ = raise (escaped attribute_error)

  abbrev pub parse_token : Result Exception Json → Result ClientError Json
  parse_token (raise ex) = raise (escaped ex)
  parse_token (ok body) = check_token body

  -- The tests of `_login_and_cache` on the reply to the login.
  unfoldable pub read_token : Reply → Result ClientError Json
  read_token transport_error = raise upstream_error
  read_token (uncaught ex) = raise (escaped ex)
  read_token (response status body) =
      if status == 401
      then raise auth_error
      else if leb 400 status
      then raise upstream_error
      else parse_token body

  abbrev pub cache_token : Result ClientError Json → Client → Client
  cache_token (ok token) c = record c { token = some token }
  cache_token (raise ex) c = c

  unfoldable pub login_and_cache : Method Json
  unfolding read_token
  login_and_cache c h =
      let (reply, h') = http.post h (c.base_url <> "/auth/login") (c.username, c.password) in
      (read_token reply, cache_token (read_token reply) c, h')

  abbrev pub token_from : Option Json → Method Json
  token_from (some token) c h = (ok token, c, h)
  token_from none c h = login_and_cache c h

  unfoldable pub token_or_login : Method Json
  token_or_login c h = token_from c.token c h

  -- `_do_get`; what it raises is raised by `read_event`.
  unfoldable pub do_get : String → Json → Client → http.State → Reply × http.State
  do_get event_id token c h = http.get h (c.base_url <> "/events/" <> event_id) (str_of codec token)

  abbrev pub parse_body : Result Exception Json → Result ClientError Json
  parse_body (ok body) = ok body
  parse_body (raise ex) = raise (escaped ex)

  -- The tests of `get_event` on the last reply.
  unfoldable pub read_event : Reply → Result ClientError Json
  read_event transport_error = raise upstream_error
  read_event (uncaught ex) = raise (escaped ex)
  read_event (response status body) =
      if status == 404
      then raise event_not_found
      else if status == 401
      then raise auth_error
      else if leb 400 status
      then raise upstream_error
      else parse_body body

  -- The reply is a 401.
  abbrev pub is_unauthorized : Reply → Bool
  is_unauthorized transport_error = false
  is_unauthorized (uncaught ex) = false
  is_unauthorized (response status body) = status == 401

  -- The second request, with the token of a fresh login.
  abbrev pub retry_with :
      String
      → Result ClientError Json × Client × http.State
      → Result ClientError Json × Client × http.State
  retry_with event_id (raise ex, c, h) = (raise ex, c, h)
  retry_with event_id (ok token, c, h) =
      let (reply, h') = do_get event_id token c h in (read_event reply, c, h')

  abbrev pub request_with :
      String
      → Result ClientError Json × Client × http.State
      → Result ClientError Json × Client × http.State
  request_with event_id (raise ex, c, h) = (raise ex, c, h)
  request_with event_id (ok token, c, h) =
      let (reply, h') = do_get event_id token c h in
      if is_unauthorized reply
      then retry_with event_id (login_and_cache c h')
      else (read_event reply, c, h')

  unfoldable pub get_event : String → Method Json
  unfolding token_or_login
  get_event event_id c h = request_with event_id (token_or_login c h)
