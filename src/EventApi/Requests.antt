-- ===== src/EventApi/Requests.antt =====
-- event/EventController.java behind the security filter: the requests that create, read and delete an
-- event, with their state.
pub mod Laws
use event_pipeline_extension.Prelude.{
  ℕ, ◌+◌, String, ◌==◌, string_eq, Option, none, some, List, [], ◌∷◌, if◌then◌else◌,
}
use event_pipeline_extension.Prelude.Result.{Result, ok, raise}
use event_pipeline_extension.Json.{Fields, dict, field, end, str}
use event_pipeline_extension.EventApi.{
  ApiException, type_mismatch, Response, json_response, error_body, handle,
}
use event_pipeline_extension.EventApi.Events.{World, create_event, delete_by_id, get_by_id}
use event_pipeline_extension.EventApi.Security.{
  Method, get, post, put, patch, delete, head, options, trace, path_eq, Decision, permitted,
  unauthenticated, denied, authorize, authenticate, on_decision,
}
use event_pipeline_extension.EventApi.Server.{Deployment, Server, timestamp, event_of_path}

pub record Request : Type 0 where
  pub method : Method
  pub path : List String
  pub header : Option String
  pub body : Option Fields

abbrev pub no_content : Response
no_content = record { status = 204; body = none }

-- `new_id` gives the `UUID.randomUUID()` of the n-th request.
module _ (d : Deployment) (new_id : ℕ → String) where
  abbrev pub respond_created : ℕ → Result ApiException String → Response
  respond_created now (ok id) =
      json_response 200 (dict (field "id" (str id) (field "status" (str "accepted") end)))
  respond_created now (raise ex) = handle (timestamp d now) ex

  abbrev pub respond_deleted : ℕ → Result ApiException (Unit {0}) → Response
  respond_deleted now (ok _) = no_content
  respond_deleted now (raise ex) = handle (timestamp d now) ex

  -- `create`
  abbrev pub create : ℕ → Option Fields → Server d → Response × Server d
  create now body s =
      let outcome =
        create_event d.platform d.repository d.mapper d.template (new_id s.requests) now body
          s.world in
      (respond_created now outcome.0, record { world = outcome.1; requests = s.requests + 1 })

  abbrev pub same_world : Response → Server d → Response × Server d
  same_world response s = (response, record { world = s.world; requests = s.requests + 1 })

  -- `delete`, with the id of its path.
  abbrev pub delete_parsed : ℕ → Result String String → Server d → Response × Server d
  delete_parsed now (raise message) s =
      same_world (handle (timestamp d now) (type_mismatch message)) s
  delete_parsed now (ok id) s =
      let outcome = delete_by_id d.platform d.repository d.mapper d.template id s.world in
      (respond_deleted now outcome.0, record { world = outcome.1; requests = s.requests + 1 })

  abbrev pub delete_one : ℕ → List String → Option String → Server d → Response × Server d
  delete_one now path none s = same_world (d.others path) s
  delete_one now path (some raw) s = delete_parsed now (d.platform.parse_uuid raw) s

  abbrev pub get_one : ℕ → List String → Option String → Server d → Response × Server d
  get_one now path none s = same_world (d.others path) s
  get_one now path (some raw) s =
      same_world
        (get_by_id d.platform d.repository d.mapper d.template (timestamp d now) raw s.world) s

  -- Spring gives a HEAD to the handler of a GET, and leaves the body out.
  abbrev pub without_body : Response × Server d → Response × Server d
  without_body (r, s) = (record r { body = none }, s)

  -- The handler of a method and a path. The other handlers change no event.
  abbrev pub route : ℕ → Method → List String → Option Fields → Server d → Response × Server d
  route now post path body s =
      if path_eq ("events" ∷ []) path then create now body s else same_world (d.others path) s
  route now delete path body s = delete_one now path (event_of_path d path) s
  route now get path body s = get_one now path (event_of_path d path) s
  route now put path body s = same_world (d.others path) s
  route now patch path body s = same_world (d.others path) s
  route now head path body s = without_body (get_one now path (event_of_path d path) s)
  route now options path body s = same_world (d.others path) s
  route now trace path body s = same_world (d.others path) s

  -- A request that is not permitted does not reach its handler.
  abbrev pub after_decision : ℕ → Request → Server d → Decision → Response × Server d
  after_decision now r s permitted = route now r.method r.path r.body s
  after_decision now r s unauthenticated =
      same_world (error_body (timestamp d now) 401 "Unauthorized" "Authentication required") s
  after_decision now r s denied =
      same_world
        (error_body (timestamp d now) 403 "Forbidden" "Insufficient role for this operation") s

  unfoldable pub serve : Request → Server d → Response × Server d
  unfolding authenticate authorize
  serve r s =
      let now = d.clock s.requests in
      after_decision now r s (authorize r.method r.path (authenticate d.jwt r.header now))

  -- Requests one after the other.
  unfoldable pub serve_all : List Request → Server d → Server d
  serve_all [] s = s
  serve_all (r ∷ requests) s = serve_all requests (serve r s).1
