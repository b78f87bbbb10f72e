-- ===== src/Store.antt =====
-- event_processor/store.py: the map from an event id to what the processor knows of the event.
-- Every method holds the lock for all of its body, so a run of several threads is a list of calls.
pub mod History
use event_pipeline_extension.Prelude.{
  ℕ, String, Option, none, some, List, [], ◌∷◌, length, string_eq,
}
use event_pipeline_extension.Dict.{Dict, get, put}

pub data Status : Type 0 where
  pending processed : Status

-- A `datetime` in UTC, as microseconds since the epoch.
abbrev pub DateTime : Type 0
DateTime = ℕ

pub record EventRecord : Type 0 where
  pub event_id : String
  pub status : Status
  pub object_key : Option String
  pub processed_at : Option DateTime

abbrev pub EventStore : Type 0
EventStore = Dict String EventRecord

abbrev pub init : EventStore
init = []

abbrev pub pending_record : String → EventRecord
pending_record event_id = record {
  event_id = event_id;
  status = pending;
  object_key = none;
  processed_at = none;
}

abbrev pub processed_record : String → String → DateTime → EventRecord
processed_record event_id object_key processed_at = record {
  event_id = event_id;
  status = processed;
  object_key = some object_key;
  processed_at = some processed_at;
}

-- The test on the existing record: a processed one stays.
pub mark_unless_processed : String → Option EventRecord → EventStore → EventStore
mark_unless_processed event_id none s = put event_id (pending_record event_id) s
mark_unless_processed event_id (some existing) s = elim existing.status [
  | pending ↦ put event_id (pending_record event_id) s
  | processed ↦ s
]

unfoldable pub mark_pending : String → EventStore → EventStore
unfolding mark_unless_processed
mark_pending event_id s = mark_unless_processed event_id (get event_id s) s

unfoldable pub mark_processed : String → String → DateTime → EventStore → EventStore
mark_processed event_id object_key processed_at s =
    put event_id (processed_record event_id object_key processed_at) s

unfoldable pub lookup : EventStore → String → Option EventRecord
lookup s event_id = get event_id s

unfoldable pub size : EventStore → ℕ
size s = length s
