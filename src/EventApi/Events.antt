-- ===== src/EventApi/Events.antt =====
-- event/EventService.java and the single-event handlers of event/EventController.java: an event is
-- created, read and deleted. The database, Jackson and the Kafka template are parameters.
pub mod Laws
pub mod History
use event_pipeline_extension.Prelude.{
  ℕ, ◌≤◌, String, ◌<>◌, ◌≡◌, ◌≢◌, Bool, true, false, Option, none, some, ltb, if◌then◌else◌,
}
use event_pipeline_extension.Prelude.Result.{Result, ok, raise}
use event_pipeline_extension.Json
use event_pipeline_extension.Json.{Json, Fields, dict, field, end, str, null}
use event_pipeline_extension.EventApi.{
  Event, ApiException, event_not_found, illegal_argument, type_mismatch, unexpected, Response,
  json_response, handle,
}

-- The methods of `EventRepository` for one event, and the row of an id.
pub record Repository : Type 1 where
  pub State : Type 0
  pub save : State → Event → Result String (Unit {0}) × State
  pub find_by_id : State → String → Result String (Option Event)
  pub exists_by_id : State → String → Result String Bool
  pub delete_by_id : State → String → Result String (Unit {0}) × State
  pub row : State → String → Option Event

abbrev pub is_some : Option Event → Bool
is_some none = false
is_some (some e) = true

-- What the service relies on: a read gives what is stored, a write that returns has stored or deleted
-- the one row, and a write that raises was rolled back.
pub record IsLawful (repository : Repository) : Type 0 where
  pub found :
      (s : repository.State) (id : String) (o : Option Event)
      → repository.find_by_id s id ≡ ok o
      → repository.row s id ≡ o
  pub existing :
      (s : repository.State) (id : String) (there : Bool)
      → repository.exists_by_id s id ≡ ok there
      → is_some (repository.row s id) ≡ there
  pub saved :
      (s t : repository.State) (e : Event)
      → repository.save s e ≡ (ok tt, t)
      → repository.row t e.id ≡ some e
  pub deleted :
      (s t : repository.State) (id : String)
      → repository.delete_by_id s id ≡ (ok tt, t)
      → repository.row t id ≡ none
  pub saved_others :
      (s : repository.State) (e : Event) (id : String)
      → id ≢ e.id
      → repository.row (repository.save s e).1 id ≡ repository.row s id
  pub deleted_others :
      (s : repository.State) (id other : String)
      → other ≢ id
      → repository.row (repository.delete_by_id s id).1 other ≡ repository.row s other
  pub save_rolled_back :
      (s t : repository.State) (e : Event) (message : String)
      → repository.save s e ≡ (raise message, t)
      → (id : String) → repository.row t id ≡ repository.row s id
  pub delete_rolled_back :
      (s t : repository.State) (id : String) (message : String)
      → repository.delete_by_id s id ≡ (raise message, t)
      → (other : String) → repository.row t other ≡ repository.row s other

-- Jackson's `writeValueAsString` and `readTree`.
pub record Mapper : Type 0 where
  pub write : Json → Result String String
  pub read_tree : String → Result String Json

-- `KafkaTemplate.send` of a topic, a key and a value. What becomes of the send later is only logged.
pub record Template : Type 1 where
  pub State : Type 0
  pub send : State → String → String → String → Result String (Unit {0}) × State

-- Java's `toString` of a value, the length of a string, and a prefix of it; the text of an instant; and
-- the UUID of a path variable.
pub record Platform : Type 0 where
  pub to_string : Json → String
  pub length : String → ℕ
  pub prefix : ℕ → String → String
  pub instant_text : ℕ → String
  pub parse_uuid : String → Result String String

pub record EventResponse : Type 0 where
  pub id : String
  pub payload : Json
  pub type : Option String
  pub status : String
  pub created_at : ℕ

module _ (platform : Platform) where
  -- `extractType` of the value of "type", `null` where there is none.
  abbrev pub type_of_value : Json → Option String
  type_of_value null = none
  type_of_value value =
      let s = platform.to_string value in
      if ltb 255 (platform.length s) then some (platform.prefix 255 s) else some s

  abbrev pub extract_type : Option Fields → Option String
  extract_type none = none
  extract_type (some fields) = type_of_value (Json.get "type" fields)

  abbrev optional : Option String → Json
  optional none = null
  optional (some s) = str s

  -- The response as Jackson writes it.
  abbrev pub response_json : EventResponse → Json
  response_json r = dict (
      field "id" (str r.id) (
        field "payload" r.payload (
          field "type" (optional r.type) (
            field "status" (str r.status)
              (field "createdAt" (str (platform.instant_text r.created_at)) end)))))

module _ (mapper : Mapper) where
  abbrev pub response_of : Event → Result String Json → Result ApiException EventResponse
  response_of e (raise message) = raise (unexpected message)
  response_of e (ok payload) = ok (record {
    id = e.id;
    payload = payload;
    type = e.type;
    status = e.status;
    created_at = e.created_at;
  })

  unfoldable pub to_response : Event → Result ApiException EventResponse
  to_response e = response_of e (mapper.read_tree e.payload)

module _ (platform : Platform) (repository : Repository) (mapper : Mapper)
    (template : Template) where
  pub record World : Type 0 where
    pub db : repository.State
    pub kafka : template.State

  -- `body == null ? Map.of() : body`
  abbrev pub payload_of : Option Fields → Json
  payload_of none = dict end
  payload_of (some fields) = dict fields

  -- The message for Kafka.
  abbrev pub message : String → Option Fields → Json
  message id body = dict (field "id" (str id) (field "payload" (payload_of body) end))

  abbrev pub wrap_json : Result String String → Result ApiException String
  wrap_json (ok text) = ok text
  wrap_json (raise _) = raise (illegal_argument "Invalid JSON payload")

  abbrev pub after_send :
      String
      → repository.State
      → Result String (Unit {0}) × template.State
      → Result ApiException String × World
  after_send id db (ok _, kafka) = (ok id, record { db = db; kafka = kafka })
  after_send id db (raise message, kafka) =
      (raise (unexpected message), record { db = db; kafka = kafka })

  -- The send comes after the save.
  abbrev pub after_save :
      String
      → String
      → template.State
      → Result String (Unit {0}) × repository.State
      → Result ApiException String × World
  after_save id envelope kafka (raise message, db) =
      (raise (unexpected message), record { db = db; kafka = kafka })
  after_save id envelope kafka (ok _, db) =
      after_send id db (template.send kafka "events" id envelope)

  abbrev pub new_event : String → ℕ → Option Fields → String → Event
  new_event id now body payload = record {
    id = id;
    payload = payload;
    type = extract_type platform body;
    status = "RECEIVED";
    created_at = now;
  }

  abbrev pub after_write :
      String
      → ℕ
      → Option Fields
      → World
      → Result ApiException String
      → Result ApiException String
      → Result ApiException String × World
  after_write id now body w (raise ex) envelope = (raise ex, w)
  after_write id now body w (ok payload) (raise ex) = (raise ex, w)
  after_write id now body w (ok payload) (ok envelope) =
      after_save id envelope w.kafka (repository.save w.db (new_event id now body payload))

  -- `createEvent`; `id` is the text of `UUID.randomUUID()`.
  unfoldable pub create_event :
      String → ℕ → Option Fields → World → Result ApiException String × World
  create_event id now body w =
      after_write id now body w (wrap_json (mapper.write (payload_of body)))
        (wrap_json (mapper.write (message id body)))

  abbrev pub after_find : String → Result String (Option Event) → Result ApiException EventResponse
  after_find id (raise message) = raise (unexpected message)
  after_find id (ok none) = raise (event_not_found id)
  after_find id (ok (some e)) = to_response mapper e

  -- `findById`
  unfoldable pub find_by_id : String → World → Result ApiException EventResponse
  unfolding to_response
  find_by_id id w = after_find id (repository.find_by_id w.db id)

  abbrev pub after_delete :
      World → Result String (Unit {0}) × repository.State → Result ApiException (Unit {0}) × World
  after_delete w (raise message, db) = (raise (unexpected message), record w { db = db })
  after_delete w (ok _, db) = (ok tt, record w { db = db })

  abbrev pub after_exists :
      String → World → Result String Bool → Result ApiException (Unit {0}) × World
  after_exists id w (raise message) = (raise (unexpected message), w)
  after_exists id w (ok false) = (raise (event_not_found id), w)
  after_exists id w (ok true) = after_delete w (repository.delete_by_id w.db id)

  -- `deleteById`
  unfoldable pub delete_by_id : String → World → Result ApiException (Unit {0}) × World
  delete_by_id id w = after_exists id w (repository.exists_by_id w.db id)

  -- `getById`: the id of the path, the event, and its response.
  abbrev pub respond_event : String → Result ApiException EventResponse → Response
  respond_event timestamp (ok r) = json_response 200 (response_json platform r)
  respond_event timestamp (raise ex) = handle timestamp ex

  abbrev pub get_parsed : String → World → Result String String → Response
  get_parsed timestamp w (raise message) = handle timestamp (type_mismatch message)
  get_parsed timestamp w (ok id) = respond_event timestamp (find_by_id id w)

  unfoldable pub get_by_id : String → String → World → Response
  unfolding find_by_id
  get_by_id timestamp id w = get_parsed timestamp w (platform.parse_uuid id)
