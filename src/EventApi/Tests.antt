-- ===== src/EventApi/Tests.antt =====
-- The libraries of event-api for its tests: the rows in memory, and tokens that count their expiry.
mod Events
mod Security
mod Server
mod Replays
mod Requests
mod Processing
mod Users
mod Counts
use Prim.Native.String.append
use event_pipeline_extension.Prelude.{
  ℕ, zero, suc, ◌+◌, ◌-◌, ◌≤◌, String, ◌<>◌, ◌≡◌, ◌≢◌, refl, sym, ap, ◌∙◌, Bool, true, false,
  Option, none, some, List, [], ◌∷◌, ◌==◌, string_eq, eq_law, eq_self, nat_eq, ltb, leb, arith,
  if◌then◌else◌,
}
use event_pipeline_extension.Prelude.Result.{Result, ok, raise}
use event_pipeline_extension.Json
use event_pipeline_extension.Json.{Json, Fields, dict, field, end, str}
use event_pipeline_extension.EventApi.{Event}
use event_pipeline_extension.EventApi.Events.{
  Repository, IsLawful, Mapper, Template, Platform, World, is_some,
}
use event_pipeline_extension.EventApi.Security.{Jwt, IsVerifying}

abbrev pub with_row : String → Option Event → (String → Option Event) → String → Option Event
with_row id e rows i = if id == i then e else rows i

abbrev pub rows_in_memory : Repository
rows_in_memory = record {
  State = String → Option Event;
  save = λ s e. (ok tt, with_row e.id (some e) s);
  find_by_id = λ s id. ok (s id);
  exists_by_id = λ s id. ok (is_some (s id));
  delete_by_id = λ s id. (ok tt, with_row id none s);
  row = λ s id. s id;
}

with_row_self :
    (id : String) (e : Option Event) (rows : String → Option Event) → with_row id e rows id ≡ e
with_row_self id e rows = rw (eq_self id) refl

with_row_other :
    (id other : String) (e : Option Event) (rows : String → Option Event)
    → other ≢ id
    → with_row id e rows other ≡ rows other
with_row_other id other e rows differs = ground (arith, eq_law id other)

pub rows_in_memory-IsLawful : IsLawful rows_in_memory
rows_in_memory-IsLawful = record {
  found = λ s id o h. cc h;
  existing = λ s id there h. cc h;
  saved = λ s t e h. ap (λ r. r.1 e.id) (sym h) ∙ with_row_self e.id (some e) s;
  deleted = λ s t id h. ap (λ r. r.1 id) (sym h) ∙ with_row_self id none s;
  saved_others = λ s e id differs. with_row_other e.id id (some e) s differs;
  deleted_others = λ s id other differs. with_row_other id other none s differs;
  save_rolled_back = λ s t e message h. absurd (cc (ap (λ r. r.0) h));
  delete_rolled_back = λ s t id message h. absurd (cc (ap (λ r. r.0) h));
}

-- The template keeps the values that it is given.
abbrev pub sent_values : Template
sent_values = record { State = List String; send = λ s topic key value. (ok tt, value ∷ s) }

-- The text of a number of fields.
abbrev field_marks : Fields → String
field_marks end = ""
field_marks (field name v rest) = name <> ";" <> field_marks rest

abbrev pub mapper : Mapper
mapper = record {
  write = λ v. elim v [ dict fields ↦ ok (field_marks fields) | _ ↦ raise "not an object" ];
  read_tree = λ text. if text == "" then ok (dict end) else raise "unexpected end";
}

abbrev pub platform : Platform
platform = record {
  to_string = λ v. elim v [ str s ↦ s | _ ↦ "" ];
  length = λ s. 0;
  prefix = λ n s. s;
  instant_text = λ n. "1970-01-01T00:00:00Z";
  parse_uuid = λ id. ok id;
}

-- A token counts the milliseconds up to its expiry, one character for each.
abbrev marks : ℕ → String
marks zero = "."
marks (suc n) = "x" <> marks n

abbrev pub count_marks : String → ℕ
count_marks String.[] = 0
count_marks (String.◌∷◌ c s) = suc (count_marks s)

count_marks-marks : (n : ℕ) → count_marks (marks n) ≡ suc n
count_marks-marks zero = refl
count_marks-marks (suc n) =
    ap count_marks (append.cons _ "" (marks n))
    ∙ ap suc (ap count_marks (append.nil (marks n)) ∙ count_marks-marks n)

marks_full : (n : ℕ) → marks n ≢ ""
marks_full n e = absurd (omega (arith, count_marks-marks n, ap count_marks e))

abbrev pub jwt : Jwt
jwt = record {
  sign = λ username role issued expires. marks expires;
  verify = λ token now.
      if leb (now + 2) (count_marks token)
      then some (record { username = some "alice"; role = some "USER" })
      else none;
}

pub jwt-IsVerifying : IsVerifying jwt "alice" "USER"
jwt-IsVerifying = record {
  accepted = λ issued expires now early. ground (arith, count_marks-marks expires);
  expired = λ issued expires now late. ground (arith, count_marks-marks expires);
}
