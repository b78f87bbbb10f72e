-- ===== src/EventApi/Tests/Events.antt =====
-- An event that is created, read and deleted.
use event_pipeline_extension.Prelude.{
  ◌≢◌, List, All, arith, eq_law, string_eq, String, ◌≡◌, refl, ap, sym, none, some, [], ◌∷◌,
}
use event_pipeline_extension.Prelude.Result.{ok, ◌>>=◌}
use event_pipeline_extension.Json.{dict, end}
use event_pipeline_extension.EventApi.{Event}
use event_pipeline_extension.EventApi.Events.{
  World, create_event, find_by_id, delete_by_id, new_event,
}
use event_pipeline_extension.EventApi.Events.Laws.{Created, create_event-Created, created_response}
use event_pipeline_extension.EventApi.Events.History.{
  Call, creating, deleting, about, perform, run, find_by_id-run,
}
use event_pipeline_extension.EventApi.Tests.{
  rows_in_memory, rows_in_memory-IsLawful, sent_values, mapper, platform,
}

abbrev pub start : World platform rows_in_memory mapper sent_values
start = record { db = λ id. none; kafka = [] }

create_event-Created_example :
    Created platform rows_in_memory mapper sent_values "evt-1" 7 none start
      (create_event platform rows_in_memory mapper sent_values "evt-1" 7 none start)
create_event-Created_example =
    create_event-Created platform rows_in_memory mapper sent_values rows_in_memory-IsLawful "evt-1"
      7 none start

-- The event of a request without a body.
abbrev pub first : Event
first = new_event platform rows_in_memory mapper sent_values "evt-1" 7 none ""

abbrev pub created : World platform rows_in_memory mapper sent_values
created = record { db = (rows_in_memory.save (λ id. none) first).1; kafka = "id;payload;" ∷ [] }

pub create_first :
    create_event platform rows_in_memory mapper sent_values "evt-1" 7 none start
    ≡ (ok "evt-1", created)
unfolding create_event
create_first = refl

pub created_there : rows_in_memory.row created.db "evt-1" ≢ none
created_there e = cc

pub empty_body :
    (text : String) → mapper.write (dict end) ≡ ok text → mapper.read_tree text ≡ ok (dict end)
empty_body text written = ap (λ r. r >>= (λ given. mapper.read_tree given)) (sym written)

abbrev pub others : List Call
others = deleting "evt-2" ∷ creating "evt-3" 8 none ∷ []

pub other_calls : All (λ c. "evt-1" ≢ about c) others
other_calls = (
  ground (arith, eq_law {A = String} "evt-1" "evt-2"),
  (ground (arith, eq_law {A = String} "evt-1" "evt-3"), tt),
)

find_by_id-run_example :
    find_by_id platform rows_in_memory mapper sent_values "evt-1"
      (run platform rows_in_memory mapper sent_values others created)
    ≡ ok (created_response platform rows_in_memory mapper sent_values "evt-1" 7 none)
unfolding run perform create_event delete_by_id
find_by_id-run_example =
    find_by_id-run platform rows_in_memory mapper sent_values rows_in_memory-IsLawful "evt-1" 7 none
      start created (ok "evt-1") others (some first) empty_body create_first refl created_there
      other_calls refl
