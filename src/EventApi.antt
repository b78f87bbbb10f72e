-- ===== src/EventApi.antt =====
-- event-api (services/event-api): the Java service that stores the events, publishes them to Kafka, and
-- gives them to the processor's replays. Here, what its parts share: the rows of the table `events`,
-- the exceptions, and the responses (event/Event.java, web/GlobalExceptionHandler.java). The
-- exceptions of other libraries are their messages.
pub mod Events
pub mod Security
pub mod Server
pub mod Requests
pub mod Replays
pub mod Processing
pub mod Stats
pub mod Listing
mod Tests
use event_pipeline_extension.Prelude.{ℕ, String, ◌<>◌, Option, none, some}
use event_pipeline_extension.Json.{Json, dict, field, end, str, int, pos}

-- `Event`; a time is a number of milliseconds.
pub record Event : Type 0 where
  pub id : String
  pub payload : String
  pub type : Option String
  pub status : String
  pub created_at : ℕ

-- The exceptions that the handlers tell apart, with their messages.
pub data ApiException : Type 0 where
  event_not_found : String → ApiException
  invalid_credentials : ApiException
  type_mismatch not_readable illegal_argument validation unexpected : String → ApiException

pub record Response : Type 0 where
  pub status : ℕ
  pub body : Option Json

-- `body(...)`; `timestamp` is the text of `Instant.now()`.
abbrev pub error_body : String → ℕ → String → String → Response
error_body timestamp status error message = record {
  status = status;
  body = some (
      dict (
        field "timestamp" (str timestamp) (
          field "status" (int (pos status))
            (field "error" (str error) (field "message" (str message) end)))));
}

-- `GlobalExceptionHandler`
unfoldable pub handle : String → ApiException → Response
handle timestamp (event_not_found id) =
    error_body timestamp 404 "Not Found" ("Event not found: " <> id)
handle timestamp invalid_credentials =
    error_body timestamp 401 "Unauthorized" "Invalid username or password"
handle timestamp (type_mismatch message) = error_body timestamp 400 "Bad Request" message
handle timestamp (not_readable message) = error_body timestamp 400 "Bad Request" message
handle timestamp (illegal_argument message) = error_body timestamp 400 "Bad Request" message
handle timestamp (validation message) = error_body timestamp 400 "Bad Request" message
handle timestamp (unexpected message) =
    error_body timestamp 500 "Internal Server Error" "An unexpected error occurred"

abbrev pub json_response : ℕ → Json → Response
json_response status v = record { status = status; body = some v }
