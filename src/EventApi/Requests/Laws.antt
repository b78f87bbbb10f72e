-- ===== src/EventApi/Requests/Laws.antt =====
-- Who can take an event away.
use event_pipeline_extension.Prelude.{
  ℕ, String, ◌≡◌, ◌≢◌, refl, sym, ◌∙◌, inl, inr, false, Bool-cases, Option, none, some, List, [],
  ◌∷◌, All, ◌==◌, string_eq, eq_law,
}
use event_pipeline_extension.Json.{Fields}
use event_pipeline_extension.EventApi.{Event}
use event_pipeline_extension.EventApi.Events.{IsLawful}
use event_pipeline_extension.EventApi.Events.History.{creating, row-perform, perform}
use event_pipeline_extension.EventApi.Security.{
  Method, get, post, put, patch, delete, head, options, trace, path_eq, Principal, Decision,
  permitted, unauthenticated, denied, authorize, authenticate, contains, on_decision,
}
use event_pipeline_extension.EventApi.Security.Laws.{authorize_roles, closed_delete}
use event_pipeline_extension.EventApi.Server.{
  Deployment, Server, timestamp, event_of_path, on_read, handle_read,
}
use event_pipeline_extension.EventApi.Requests.{
  Request, create, delete_one, get_one, route, after_decision, serve, serve_all,
}

module _ (d : Deployment) (new_id : ℕ → String) (lawful : IsLawful d.repository) where
  -- The row of an event.
  abbrev pub row : Server d → String → Option Event
  row s id = d.repository.row s.world.db id

  -- No token of the request is one of an administrator, at whatever time it is looked at.
  abbrev pub IsNoAdmin : Request → Type 0
  IsNoAdmin r =
      (now : ℕ) (p : Principal)
      → authenticate d.jwt r.header now ≡ some p
      → contains "ROLE_ADMIN" p.authorities ≡ false

  create_keeps :
      (now : ℕ) (body : Option Fields) (s : Server d) (id : String)
      → id ≢ new_id s.requests
      → row (create d new_id now body s).1 id ≡ row s id
  create_keeps now body s id fresh =
      unfold perform in
      row-perform d.platform d.repository d.mapper d.template lawful
        (creating (new_id s.requests) now body) id s.world fresh

  -- A delete is not permitted without the role.
  delete_refused :
      (path : List String) (id : String) (o : Option Principal)
      → event_of_path d path ≡ some id
      → ((p : Principal) → o ≡ some p → contains "ROLE_ADMIN" p.authorities ≡ false)
      → authorize delete path o ≢ permitted
  delete_refused [] id o e no_admin h = cc
  delete_refused (a ∷ []) id o e no_admin h = cc
  delete_refused (a ∷ b ∷ c ∷ path) id o e no_admin h = cc
  delete_refused (a ∷ b ∷ []) id none e no_admin h = cc (closed_delete (a ∷ b ∷ []))
  delete_refused (a ∷ b ∷ []) id (some p) e no_admin h = elim (Bool-cases (a == "events")) [
    | inl same ↦
        let events : a ≡ "events" = (eq_law a "events").0 same in
        let admin = (authorize_roles (b ∷ []) p).0.0 (rw events at h) in cc (no_admin p refl)
    | inr other ↦ cc (rw other at e)
  ]

  get_keeps :
      (now : ℕ) (path : List String) (o : Option String) (s : Server d) (id : String)
      → row (get_one d new_id now path o s).1 id ≡ row s id
  get_keeps now path none s id = refl
  get_keeps now path (some raw) s id = refl

  delete_keeps :
      (now : ℕ) (path : List String) (o : Option String) (s : Server d) (id : String)
      → ((raw : String) → o ≢ some raw)
      → row (delete_one d new_id now path o s).1 id ≡ row s id
  delete_keeps now path none s id nothing = refl
  delete_keeps now path (some raw) s id nothing = absurd (nothing raw refl)

  post_keeps :
      (now : ℕ) (r : Request) (s : Server d) (id : String)
      → id ≢ new_id s.requests
      → row (route d new_id now post r.path r.body s).1 id ≡ row s id
  post_keeps now r s id fresh = elim (Bool-cases (path_eq ("events" ∷ []) r.path)) [
    | inl events ↦ rw events (create_keeps now r.body s id fresh)
    | inr other ↦ rw other refl
  ]

  decision_keeps :
      (now : ℕ) (r : Request) (s : Server d) (id : String) (o : Option Principal) (x : Decision)
      → ((p : Principal) → o ≡ some p → contains "ROLE_ADMIN" p.authorities ≡ false)
      → id ≢ new_id s.requests
      → authorize r.method r.path o ≡ x
      → row (after_decision d new_id now r s x).1 id ≡ row s id
  decision_keeps now r s id o unauthenticated no_admin fresh e = refl
  decision_keeps now r s id o denied no_admin fresh e = refl
  decision_keeps now r s id o permitted no_admin fresh e = route_keeps r.method refl
    where
      route_keeps :
          (m : Method) → r.method ≡ m → row (route d new_id now m r.path r.body s).1 id ≡ row s id
      route_keeps post h = post_keeps now r s id fresh
      route_keeps get h = get_keeps now r.path (event_of_path d r.path) s id
      route_keeps put h = refl
      route_keeps patch h = refl
      route_keeps head h = get_keeps now r.path (event_of_path d r.path) s id
      route_keeps options h = refl
      route_keeps trace h = refl
      route_keeps delete h =
          delete_keeps now r.path (event_of_path d r.path) s id
            (λ raw found. delete_refused r.path raw o found no_admin (rw (sym h) e))

  serve_keeps :
      (r : Request) (s : Server d) (id : String)
      → IsNoAdmin r
      → id ≢ new_id s.requests
      → row (serve d new_id r s).1 id ≡ row s id
  unfolding serve
  serve_keeps r s id no_admin fresh =
      decision_keeps (d.clock s.requests) r s id _ _ (no_admin (d.clock s.requests)) fresh refl

  -- No one but an administrator changes or takes away an event: if the repository is lawful and the
  -- event's id is not drawn again, then after any requests that carry no token of an administrator,
  -- whatever they were and however they were answered, its row is what it was.
  pub no_admin_keeps :
      (requests : List Request) (s : Server d) (id : String)
      → All IsNoAdmin requests
      → ((n : ℕ) → id ≢ new_id n)
      → row (serve_all d new_id requests s) id ≡ row s id
  unfolding serve_all
  no_admin_keeps [] s id no_admins fresh = refl
  no_admin_keeps (r ∷ requests) s id no_admins fresh =
      no_admin_keeps requests (serve d new_id r s).1 id no_admins.1 fresh
      ∙ serve_keeps r s id no_admins.0 (fresh s.requests)

read_response :
    (d : Deployment) (new_id : ℕ → String) (now : ℕ) (path : List String) (o : Option String)
    (s : Server d)
    → (get_one d new_id now path o s).0 ≡ on_read d now path s o
read_response d new_id now path none s = refl
read_response d new_id now path (some raw) s = refl

decided_read :
    (d : Deployment) (new_id : ℕ → String) (now : ℕ) (r : Request) (s : Server d) (x : Decision)
    → r.method ≡ get
    → (after_decision d new_id now r s x).0
      ≡ on_decision (timestamp d now) x (on_read d now r.path s (event_of_path d r.path))
decided_read d new_id now r s permitted h =
    rw h (read_response d new_id now r.path (event_of_path d r.path) s)
decided_read d new_id now r s unauthenticated h = refl
decided_read d new_id now r s denied h = refl

abbrev read_request : List String → String → Request
read_request path header = record { method = get; path = path; header = some header; body = none }

-- The read of the processor's client is such a request.
pub serve-handle_read :
    (d : Deployment) (new_id : ℕ → String) (s : Server d) (path : List String) (header : String)
    → (serve d new_id (read_request path header) s).0 ≡ handle_read d s path header
unfolding serve handle_read
serve-handle_read d new_id s path header =
    decided_read d new_id (d.clock s.requests) (read_request path header) s _ refl
