-- ===== src/EventApi/Events/Laws.antt =====
-- An event that was created can be read, one that was deleted cannot, and what is left on each failure.
use event_pipeline_extension.Prelude.{
  ℕ, String, ◌≡◌, ◌≢◌, refl, sym, ap, ◌∙◌, Bool, true, false, Option, none, some,
}
use event_pipeline_extension.Prelude.Result.{Result, ok, raise}
use event_pipeline_extension.Json.{Fields}
use event_pipeline_extension.EventApi.{Event, ApiException, event_not_found, unexpected}
use event_pipeline_extension.EventApi.Events.{
  Repository, IsLawful, Mapper, Template, Platform, EventResponse, extract_type, World, payload_of,
  message, wrap_json, after_send, after_save, new_event, after_write, create_event, after_delete,
  after_exists, delete_by_id, is_some,
}

module _ (platform : Platform) (repository : Repository) (mapper : Mapper)
    (template : Template) where
  -- The rows are as they were.
  abbrev pub SameRows : repository.State → repository.State → Type 0
  SameRows s t = (id : String) → repository.row t id ≡ repository.row s id

  -- The new row is there, and the other rows are as they were.
  pub record IsStored (e : Event) (s t : repository.State) : Type 0 where
    pub stored : repository.row t e.id ≡ some e
    pub others : (id : String) → id ≢ e.id → repository.row t id ≡ repository.row s id

  -- What `create_event` leaves: the event stored and its envelope sent, or the event stored although the
  -- send raised, or nothing changed and nothing sent.
  pub data Created (id : String) (now : ℕ) (body : Option Fields)
      (w : World platform repository mapper template)
      : Result ApiException String × World platform repository mapper template → Type 0 where
    sent :
        (payload envelope : String) {t : World platform repository mapper template}
        → mapper.write (payload_of platform repository mapper template body) ≡ ok payload
        → mapper.write (message platform repository mapper template id body) ≡ ok envelope
        → IsStored (new_event platform repository mapper template id now body payload) w.db t.db
        → template.send w.kafka "events" id envelope ≡ (ok tt, t.kafka)
        → Created id now body w (ok id, t)
    unsent :
        (payload envelope text : String) {t : World platform repository mapper template}
        → mapper.write (payload_of platform repository mapper template body) ≡ ok payload
        → mapper.write (message platform repository mapper template id body) ≡ ok envelope
        → IsStored (new_event platform repository mapper template id now body payload) w.db t.db
        → template.send w.kafka "events" id envelope ≡ (raise text, t.kafka)
        → Created id now body w (raise (unexpected text), t)
    refused :
        (ex : ApiException) {t : World platform repository mapper template}
        → SameRows w.db t.db
        → t.kafka ≡ w.kafka
        → Created id now body w (raise ex, t)

  -- The event that a body makes, as `find_by_id` gives it.
  abbrev pub created_response : String → ℕ → Option Fields → EventResponse
  created_response id now body = record {
    id = id;
    payload = payload_of platform repository mapper template body;
    type = extract_type platform body;
    status = "RECEIVED";
    created_at = now;
  }

  -- What `delete_by_id` leaves.
  pub data Deleted (id : String) (w : World platform repository mapper template)
      : Result ApiException (Unit {0}) × World platform repository mapper template → Type 0 where
    gone :
        {t : World platform repository mapper template}
        → is_some (repository.row w.db id) ≡ true
        → repository.row t.db id ≡ none
        → ((other : String) → other ≢ id → repository.row t.db other ≡ repository.row w.db other)
        → Deleted id w (ok tt, t)
    missing : repository.row w.db id ≡ none → Deleted id w (raise (event_not_found id), w)
    failed :
        (ex : ApiException) {t : World platform repository mapper template}
        → SameRows w.db t.db
        → Deleted id w (raise ex, t)

  module _ (lawful : IsLawful repository) where
    IsStored-save :
        (s t : repository.State) (e : Event) → repository.save s e ≡ (ok tt, t) → IsStored e s t
    IsStored-save s t e h = record {
      stored = lawful.saved s t e h;
      others =
          λ id other. ap (λ r. repository.row r.1 id) (sym h) ∙ lawful.saved_others s e id other;
    }

    module _ (id : String) (now : ℕ) (body : Option Fields)
        (w : World platform repository mapper template) (payload envelope : String)
        (written : mapper.write (payload_of platform repository mapper template body) ≡ ok payload)
        (wrapped : mapper.write (message platform repository mapper template id body)
          ≡ ok envelope) where
      send-Created :
          (db : repository.State) (r : Result String (Unit {0}) × template.State)
          → IsStored (new_event platform repository mapper template id now body payload) w.db db
          → template.send w.kafka "events" id envelope ≡ r
          → Created id now body w (after_send platform repository mapper template id db r)
      send-Created db (ok tt, kafka) stored h = sent payload envelope written wrapped stored h
      send-Created db (raise text, kafka) stored h =
          unsent payload envelope text written wrapped stored h

      save-Created :
          (r : Result String (Unit {0}) × repository.State)
          → repository.save w.db (new_event platform repository mapper template id now body payload)
            ≡ r
          → Created id now body w
              (after_save platform repository mapper template id envelope w.kafka r)
      save-Created (ok tt, db) h = send-Created db _ (IsStored-save w.db db _ h) refl
      save-Created (raise text, db) h = refused _ (lawful.save_rolled_back w.db db _ text h) refl

    write-Created :
        (id : String) (now : ℕ) (body : Option Fields)
        (w : World platform repository mapper template) (p e : Result String String)
        → mapper.write (payload_of platform repository mapper template body) ≡ p
        → mapper.write (message platform repository mapper template id body) ≡ e
        → Created id now body w (
            after_write platform repository mapper template id now body w
              (wrap_json platform repository mapper template p)
              (wrap_json platform repository mapper template e))
    write-Created id now body w (raise text) e hp he = refused _ (λ j. refl) refl
    write-Created id now body w (ok payload) (raise text) hp he = refused _ (λ j. refl) refl
    write-Created id now body w (ok payload) (ok envelope) hp he =
        save-Created id now body w payload envelope hp he _ refl

    -- If the repository is lawful: a `create_event` that returns gives the id, has stored the event and
    -- no other row, and has sent the envelope; one that raises has stored the event if only the send
    -- raised, and otherwise has changed no row and sent nothing.
    pub create_event-Created :
        (id : String) (now : ℕ) (body : Option Fields)
        (w : World platform repository mapper template)
        → Created id now body w (create_event platform repository mapper template id now body w)
    unfolding create_event
    create_event-Created id now body w = write-Created id now body w _ _ refl refl

    delete-Deleted :
        (id : String) (w : World platform repository mapper template)
        (r : Result String (Unit {0}) × repository.State)
        → is_some (repository.row w.db id) ≡ true
        → repository.delete_by_id w.db id ≡ r
        → Deleted id w (after_delete platform repository mapper template w r)
    delete-Deleted id w (ok tt, db) there h =
        gone there (lawful.deleted w.db db id h) (λ other differs.
          ap (λ r. repository.row r.1 other) (sym h) ∙ lawful.deleted_others w.db id other differs)
    delete-Deleted id w (raise text, db) there h =
        failed _ (lawful.delete_rolled_back w.db db id text h)

    is_some-none : (o : Option Event) → is_some o ≡ false → o ≡ none
    is_some-none none e = refl
    is_some-none (some x) e = cc

    exists-Deleted :
        (id : String) (w : World platform repository mapper template) (r : Result String Bool)
        → repository.exists_by_id w.db id ≡ r
        → Deleted id w (after_exists platform repository mapper template id w r)
    exists-Deleted id w (ok true) h =
        delete-Deleted id w (repository.delete_by_id w.db id) (lawful.existing w.db id true h) refl
    exists-Deleted id w (ok false) h =
        missing (is_some-none (repository.row w.db id) (lawful.existing w.db id false h))
    exists-Deleted id w (raise text) h = failed _ (λ other. refl)

    -- If the repository is lawful: a `delete_by_id` that returns has deleted the event, which was there,
    -- and no other; without the event it raises "not found" and changes nothing; any other failure
    -- leaves every row as it was.
    pub delete_by_id-Deleted :
        (id : String) (w : World platform repository mapper template)
        → Deleted id w (delete_by_id platform repository mapper template id w)
    unfolding delete_by_id
    delete_by_id-Deleted id w = exists-Deleted id w (repository.exists_by_id w.db id) refl
