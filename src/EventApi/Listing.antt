-- ===== src/EventApi/Listing.antt =====
-- `EventService.findAll` and event/EventSpecifications.java: the filters, the order and the pages of the
-- list of events.
pub mod Laws
use event_pipeline_extension.Prelude.{
  ℕ, zero, suc, ◌+◌, ◌*◌, ◌≤◌, String, ◌≡◌, ◌≢◌, ◌↔◌, Bool, true, false, ◌&&◌, ◌||◌, Option, none,
  some, List, [], ◌∷◌, keep, take, drop, All, IsIn, ltb, leb, nat_beq, ◌==◌, string_eq, option_eq,
  if◌then◌else◌,
}
use event_pipeline_extension.Prelude.Result.{Result, ok, raise, ◌>>=◌}
use event_pipeline_extension.Json.{ℤ, pos, negsuc}
use event_pipeline_extension.EventApi.{Event, ApiException, illegal_argument}
use event_pipeline_extension.EventApi.Events.{Mapper, EventResponse, to_response}

-- The parameters of a request; a time is an instant in milliseconds.
pub record Query : Type 0 where
  pub type : Option String
  pub since : Option ℕ
  pub until : Option ℕ
  pub page : ℤ
  pub size : ℤ

-- `hasType`; `blank` is `String.isBlank`.
abbrev pub has_type : (String → Bool) → Option String → Event → Bool
has_type blank none e = true
has_type blank (some type) e = if blank type then true else e.type == some type

abbrev pub created_from : Option ℕ → Event → Bool
created_from none e = true
created_from (some since) e = leb since e.created_at

abbrev pub created_to : Option ℕ → Event → Bool
created_to none e = true
created_to (some until) e = leb e.created_at until

abbrev pub selects : (String → Bool) → Query → Event → Bool
selects blank q e = has_type blank q.type e && created_from q.since e && created_to q.until e

-- `Sort.by(desc("createdAt"), asc("id"))`, with the database's order of the ids.
abbrev pub before : (String → String → Bool) → Event → Event → Bool
before id_before a b =
    ltb b.created_at a.created_at || (nat_beq a.created_at b.created_at && id_before a.id b.id)

abbrev pub IsSorted : (String → String → Bool) → List Event → Type 0
IsSorted id_before [] = Unit
IsSorted id_before (e ∷ rows) =
    All (λ later. before id_before e later ≡ true) rows × IsSorted id_before rows

-- What the service leaves to the database: each query sorts the rows that it selects anew; and the text
-- tests.
pub record Database : Type 0 where
  pub sort : ℕ → List Event → List Event
  pub id_before : String → String → Bool
  pub blank : String → Bool

-- What `ORDER BY` promises, for rows whose ids, the primary key, are distinct, in whichever query.
pub record IsOrdering (db : Database) (rows : List Event) : Type 0 where
  pub sorted : (query : ℕ) (p : Event → Bool) → IsSorted db.id_before (db.sort query (keep p rows))
  pub same :
      (query : ℕ) (p : Event → Bool) (e : Event)
      → IsIn e (db.sort query (keep p rows)) ↔ IsIn e (keep p rows)
  pub asymmetric : (a b : String) → db.id_before a b ≡ true → db.id_before b a ≡ false

-- `Math.min(size, maxPageSize)`
abbrev pub smaller : ℕ → ℕ → ℕ
smaller a b = if leb a b then a else b

abbrev pub is_after : Option ℕ → Option ℕ → Bool
is_after (some since) (some until) = ltb until since
is_after _ _ = false

-- `maxPageSize` of the constructor: a setting that is not positive is replaced.
abbrev pub page_limit : ℤ → ℕ
page_limit (pos (suc n)) = suc n
page_limit _ = 100

-- `map(this::toResponse)`, which raises at the first event whose payload is not JSON.
abbrev pub all_responses : Mapper → List Event → Result ApiException (List EventResponse)
all_responses mapper [] = ok []
all_responses mapper (e ∷ events) = do
  r ← to_response mapper e
  rest ← all_responses mapper events
  ok (r ∷ rest)

module _ (db : Database) (mapper : Mapper) (max_page_size : ℤ) where
  -- The rows of a page: the query `number` with `LIMIT` and `OFFSET`.
  abbrev pub page_rows : ℕ → Query → ℕ → ℕ → List Event → List Event
  page_rows number q page size rows =
      let n = smaller size (page_limit max_page_size) in
      take n (drop (page * n) (db.sort number (keep (selects db.blank q) rows)))

  -- The content of a page.
  abbrev pub content : ℕ → Query → ℕ → ℕ → List Event → Result ApiException (List EventResponse)
  content number q page size rows = all_responses mapper (page_rows number q page size rows)

  abbrev pub checked_range :
      ℕ → Query → ℕ → ℕ → List Event → Result ApiException (List EventResponse)
  checked_range number q page size rows =
      if is_after q.since q.until
      then raise (illegal_argument "'from' must be <= 'to'")
      else content number q page size rows

  abbrev pub checked_size :
      ℕ → Query → ℕ → ℤ → List Event → Result ApiException (List EventResponse)
  checked_size number q page (pos (suc n)) rows = checked_range number q page (suc n) rows
  checked_size number q page _ rows = raise (illegal_argument "size must be > 0")

  abbrev pub checked_page : ℕ → Query → ℤ → List Event → Result ApiException (List EventResponse)
  checked_page number q (pos page) rows = checked_size number q page q.size rows
  checked_page number q (negsuc n) rows = raise (illegal_argument "page must be >= 0")

  unfoldable pub find_all : ℕ → Query → List Event → Result ApiException (List EventResponse)
  find_all number q rows = checked_page number q q.page rows
