-- ===== src/EventApi/Server.antt =====
-- event-api as the processor's client sees it: the login and the read of an event behind the security
-- filter, over HTTP. The mappings are those of auth/AuthController.java and event/EventController.java.
pub mod Laws
use event_pipeline_extension.Prelude.{
  ℕ, ◌+◌, String, ◌<>◌, Option, none, some, List, [], ◌∷◌, ◌==◌, string_eq, if◌then◌else◌, Bool,
  true, false,
}
use event_pipeline_extension.Prelude.Result.{Result, raise}
use event_pipeline_extension.Errors.{Exception, json_decode_error}
use event_pipeline_extension.Json.{Json}
use event_pipeline_extension.Client.{Reply, Http, response}
use event_pipeline_extension.EventApi.{Response}
use event_pipeline_extension.EventApi.Events.{
  Repository, Mapper, Template, Platform, World, get_by_id,
}
use event_pipeline_extension.EventApi.Security.{
  post, get, path_eq, Principal, on_decision, authorize, Jwt, authenticate, Logins, login,
  respond_login,
}

-- What the service stands on: its libraries, the time of its n-th request, the path of a URL, the
-- response to a request for another path, and the JSON of a body as the client reads it.
pub record Deployment : Type 1 where
  pub platform : Platform
  pub repository : Repository
  pub mapper : Mapper
  pub template : Template
  pub jwt : Jwt
  pub logins : Logins
  pub clock : ℕ → ℕ
  pub path_of : String → List String
  pub others : List String → Response
  pub transfer : Json → Result Exception Json

module _ (d : Deployment) where
  pub record Server : Type 0 where
    pub world : World d.platform d.repository d.mapper d.template
    pub requests : ℕ

  abbrev pub timestamp : ℕ → String
  timestamp now = d.platform.instant_text now

  -- `/events/{id}`
  abbrev pub event_of_path : List String → Option String
  event_of_path (a ∷ id ∷ []) = if a == "events" then some id else none
  event_of_path _ = none

  abbrev pub on_login : ℕ → List String → String → String → Response
  on_login now path username password =
      if path_eq ("auth" ∷ "login" ∷ []) path
      then respond_login d.jwt d.logins (timestamp now) (login d.jwt d.logins username password now)
      else d.others path

  abbrev pub on_read : ℕ → List String → Server → Option String → Response
  on_read now path s none = d.others path
  on_read now path s (some id) =
      get_by_id d.platform d.repository d.mapper d.template (timestamp now) id s.world

  -- A request passes the filter and the rules before its handler.
  unfoldable pub handle_login : Server → List String → String → String → Response
  unfolding authenticate authorize
  handle_login s path username password =
      let now = d.clock s.requests in
      on_decision (timestamp now) (authorize post path (authenticate d.jwt none now))
        (on_login now path username password)

  unfoldable pub handle_read : Server → List String → String → Response
  unfolding authenticate authorize
  handle_read s path header =
      let now = d.clock s.requests in
      on_decision (timestamp now) (authorize get path (authenticate d.jwt (some header) now))
        (on_read now path s (event_of_path path))

  abbrev pub read_body : Option Json → Result Exception Json
  read_body none = raise json_decode_error
  read_body (some v) = d.transfer v

  abbrev pub reply_of : Response → Reply
  reply_of r = response r.status (read_body r.body)

  abbrev next : Server → Server
  next s = record s { requests = s.requests + 1 }

  -- The service as the other end of the client's HTTP connection.
  abbrev pub server : Http
  server = record {
    State = Server;
    post = λ s url credentials.
        (reply_of (handle_login s (d.path_of url) credentials.0 credentials.1), next s);
    get = λ s url token. (reply_of (handle_read s (d.path_of url) ("Bearer " <> token)), next s);
  }
