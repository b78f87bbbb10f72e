-- ===== src/EventApi/Events/History.antt =====
-- What other requests leave of an event: creations and deletions of other ids, in any order, whether
-- they return or raise.
use mathlib.Core.Path.{subst}
use event_pipeline_extension.Prelude.{
  ℕ, String, ◌≡◌, ◌≢◌, ◌∙◌, refl, sym, Option, none, some, List, [], ◌∷◌, All,
}
use event_pipeline_extension.Prelude.Result.{Result, ok, raise}
use event_pipeline_extension.Json.{Fields}
use event_pipeline_extension.EventApi.{Event, ApiException, event_not_found}
use event_pipeline_extension.EventApi.Events.{
  Repository, IsLawful, Mapper, Template, Platform, World, payload_of, new_event, create_event,
  to_response, find_by_id, delete_by_id,
}
use event_pipeline_extension.EventApi.Events.Laws.{
  Created, sent, unsent, refused, create_event-Created, created_response, Deleted, gone, missing,
  failed, delete_by_id-Deleted,
}

-- A call of the service that changes the database.
pub data Call : Type 0 where
  creating : String → ℕ → Option Fields → Call
  deleting : String → Call

-- The event that a call is about.
abbrev pub about : Call → String
about (creating id now body) = id
about (deleting id) = id

module _ (platform : Platform) (repository : Repository) (mapper : Mapper)
    (template : Template) where
  unfoldable pub perform :
      Call → World platform repository mapper template → World platform repository mapper template
  perform (creating id now body) w =
      (create_event platform repository mapper template id now body w).1
  perform (deleting id) w = (delete_by_id platform repository mapper template id w).1

  -- The calls in their order.
  unfoldable pub run :
      List Call
      → World platform repository mapper template
      → World platform repository mapper template
  run [] w = w
  run (c ∷ calls) w = run calls (perform c w)

  module _ (lawful : IsLawful repository) where
    created_others :
        (id : String) (now : ℕ) (body : Option Fields)
        (w : World platform repository mapper template)
        (r : Result ApiException String × World platform repository mapper template)
        (other : String)
        → other ≢ id
        → Created platform repository mapper template id now body w r
        → repository.row r.1.db other ≡ repository.row w.db other
    created_others id now body w r other differs (sent payload envelope hp he stored hs) =
        stored.others other differs
    created_others id now body w r other differs (unsent payload envelope text hp he stored hs) =
        stored.others other differs
    created_others id now body w r other differs (refused ex same still) = same other

    deleted_others :
        (id : String) (w : World platform repository mapper template)
        (r : Result ApiException (Unit {0}) × World platform repository mapper template)
        (other : String)
        → other ≢ id
        → Deleted platform repository mapper template id w r
        → repository.row r.1.db other ≡ repository.row w.db other
    deleted_others id w r other differs (gone there now others) = others other differs
    deleted_others id w r other differs (missing nothing) = refl
    deleted_others id w r other differs (failed ex same) = same other

    pub row-perform :
        (c : Call) (id : String) (w : World platform repository mapper template)
        → id ≢ about c
        → repository.row (perform c w).db id ≡ repository.row w.db id
    unfolding perform
    row-perform (creating other now body) id w differs =
        created_others other now body w _ id differs
          (create_event-Created platform repository mapper template lawful other now body w)
    row-perform (deleting other) id w differs =
        deleted_others other w _ id differs
          (delete_by_id-Deleted platform repository mapper template lawful other w)

    -- No call about other events changes the row of an event.
    pub row-run :
        (calls : List Call) (id : String) (w : World platform repository mapper template)
        → All (λ c. id ≢ about c) calls
        → repository.row (run calls w).db id ≡ repository.row w.db id
    unfolding run
    row-run [] id w apart = refl
    row-run (c ∷ calls) id w apart =
        row-run calls id (perform c w) apart.1 ∙ row-perform c id w apart.0

    -- A new event that is there after `create_event` was stored by it, whether it returned or not.
    stored_row :
        (id : String) (now : ℕ) (body : Option Fields)
        (w t : World platform repository mapper template) (r : Result ApiException String)
        → Created platform repository mapper template id now body w (r, t)
        → repository.row w.db id ≡ none
        → repository.row t.db id ≢ none
        → (payload : String) × (mapper.write (payload_of platform repository mapper template body)
            ≡ ok payload)
          × (repository.row t.db id
              ≡ some (new_event platform repository mapper template id now body payload))
    stored_row id now body w t r (sent payload envelope hp he stored hs) new there =
        (payload, hp, stored.stored)
    stored_row id now body w t r (unsent payload envelope text hp he stored hs) new there =
        (payload, hp, stored.stored)
    stored_row id now body w t r (refused ex same still) new there = absurd (there (same id ∙ new))

    -- A created event stays readable: if the repository is lawful, the body survives Jackson's writing
    -- and reading, the id was new and `create_event` has stored the event, be it that it returned or that
    -- only its send raised, any calls about other events followed, whether they returned or raised, and
    -- the read of the row does not raise, then `find_by_id` gives the body under the id, with the type
    -- found in it and the status RECEIVED.
    pub find_by_id-run :
        (id : String) (now : ℕ) (body : Option Fields)
        (w t : World platform repository mapper template) (r : Result ApiException String)
        (calls : List Call) (o : Option Event)
        → ((text : String)
            → mapper.write (payload_of platform repository mapper template body) ≡ ok text
            → mapper.read_tree text ≡ ok (payload_of platform repository mapper template body))
        → create_event platform repository mapper template id now body w ≡ (r, t)
        → repository.row w.db id ≡ none
        → repository.row t.db id ≢ none
        → All (λ c. id ≢ about c) calls
        → repository.find_by_id (run calls t).db id ≡ ok o
        → find_by_id platform repository mapper template id (run calls t)
          ≡ ok (created_response platform repository mapper template id now body)
    unfolding find_by_id to_response
    find_by_id-run id now body w t r calls o inverse e new there apart read =
        let created =
          subst (Created platform repository mapper template id now body w) e
            (create_event-Created platform repository mapper template lawful id now body w) in
        let (payload, written, stored) = stored_row id now body w t r created new there in
        let found : o ≡ some (new_event platform repository mapper template id now body payload) =
          sym (lawful.found (run calls t).db id o read) ∙ row-run calls id t apart ∙ stored in
        rw (read, found, inverse payload written) refl

    nothing_left :
        (id : String) (w t : World platform repository mapper template)
        → Deleted platform repository mapper template id w (ok tt, t)
        → repository.row t.db id ≡ none
    nothing_left id w t (gone there now others) = now

    -- A deleted event stays away: if the repository is lawful, `delete_by_id` returned, any calls about
    -- other events followed, and the read of the row does not raise, then `find_by_id` raises that the
    -- event is not found.
    pub find_by_id-deleted :
        (id : String) (w t : World platform repository mapper template) (calls : List Call)
        (o : Option Event)
        → delete_by_id platform repository mapper template id w ≡ (ok tt, t)
        → All (λ c. id ≢ about c) calls
        → repository.find_by_id (run calls t).db id ≡ ok o
        → find_by_id platform repository mapper template id (run calls t)
          ≡ raise (event_not_found id)
    unfolding find_by_id to_response
    find_by_id-deleted id w t calls o e apart read =
        let deleted =
          subst (Deleted platform repository mapper template id w) e
            (delete_by_id-Deleted platform repository mapper template lawful id w) in
        let found : o ≡ none =
          sym (lawful.found (run calls t).db id o read)
          ∙ row-run calls id t apart
          ∙ nothing_left id w t deleted in
        rw (read, found) refl
