-- ===== src/EventApi/Tests/Counts.antt =====
-- Three events counted, and read page by page.
use mathlib.Core.Path.{subst}
use event_pipeline_extension.Prelude.{
  ℕ, ◌<◌, String, ◌≡◌, ◌↔◌, refl, inl, inr, Bool, Option, none, some, List, [], ◌∷◌, keep, IsIn,
  Bool-cases, eq_law, ◌==◌, option_eq, string_eq, ltb, arith,
}
use event_pipeline_extension.Json.{pos}
use event_pipeline_extension.EventApi.{Event}
use event_pipeline_extension.EventApi.Stats.{tally, IsGrouping}
use event_pipeline_extension.EventApi.Stats as Stats
use event_pipeline_extension.EventApi.Stats.Laws.{
  labelled, reported, summary-labelled, summary_undercounts,
}
use event_pipeline_extension.EventApi.Listing.{all_responses, Query, selects, IsSorted, IsOrdering}
use event_pipeline_extension.EventApi.Listing as Listing
use event_pipeline_extension.EventApi.Listing.Laws.{pages, listing, pages_all}
use event_pipeline_extension.EventApi.Tests.{count_marks, mapper}

abbrev event : String → Option String → ℕ → Event
event id type created_at = record {
  id = id;
  payload = "";
  type = type;
  status = "RECEIVED";
  created_at = created_at;
}

-- An event without a type, one whose type is called so, and another.
abbrev rows : List Event
rows =
    event "evt-1" (some "order") 9 ∷ event "evt-10" (some "unknown") 9 ∷ event "evt-2" none 4 ∷ []

abbrev groups : List (Option String × ℕ)
groups = (none, 1) ∷ (some "unknown", 1) ∷ (some "order", 1) ∷ []

abbrev counting : Stats.Database
counting = record { group = λ given. groups; order_by_count = λ counts. counts }

all_groups : (t : Option String) → 0 < tally t rows → IsIn (t, tally t rows) groups
all_groups t there = elim (Bool-cases (none == t)) [
  | inl same ↦ subst (λ u. IsIn (u, tally u rows) groups) ((eq_law none t).0 same) (inl refl)
  | inr typed ↦ elim (Bool-cases (some "unknown" == t)) [
    | inl same ↦
        subst (λ u. IsIn (u, tally u rows) groups) ((eq_law (some "unknown") t).0 same)
          (inr (inl refl))
    | inr known ↦ elim (Bool-cases (some "order" == t)) [
      | inl same ↦
          subst (λ u. IsIn (u, tally u rows) groups) ((eq_law (some "order") t).0 same)
            (inr (inr (inl refl)))
      | inr other ↦ absurd (omega (arith, rw (typed, known, other) at there))
    ]
  ]
]

grouped : IsGrouping rows (counting.group rows)
grouped = record {
  counted = ((refl, omega arith), ((refl, omega arith), ((refl, omega arith), tt)));
  complete = all_groups;
}

summary-labelled_example : reported counting rows grouped 10 "order" ≡ labelled "order" rows
summary-labelled_example =
    summary-labelled counting rows grouped 10 "order"
      (inl (ground (arith, eq_law {A = String} "order" "unknown")))

summary_undercounts_example : reported counting rows grouped 10 "unknown" < labelled "unknown" rows
summary_undercounts_example =
    summary_undercounts counting rows grouped 10 (omega arith) (omega arith)

abbrev sorted_rows : Listing.Database
sorted_rows = record {
  sort = λ query given. given;
  id_before = λ a b. ltb (count_marks a) (count_marks b);
  blank = λ text. text == "";
}

keep-IsSorted : (p : Event → Bool) → IsSorted sorted_rows.id_before (keep p rows)
keep-IsSorted p = ground arith

ordered : IsOrdering sorted_rows rows
ordered = record {
  sorted = λ query p. keep-IsSorted p;
  same = λ query p e. (λ i. i, λ i. i);
  asymmetric = λ a b h. ground arith;
}

abbrev recent : Query
recent = record { type = none; since = some 5; until = none; page = pos 0; size = pos 1 }

pages_all_example :
    (pages sorted_rows mapper (pos 100) rows (λ i. i) recent 1 2
      ≡ all_responses mapper (listing sorted_rows mapper (pos 100) rows recent))
    × IsSorted sorted_rows.id_before (listing sorted_rows mapper (pos 100) rows recent)
    × ((e : Event)
        → IsIn e (listing sorted_rows mapper (pos 100) rows recent)
          ↔ IsIn e (keep (selects sorted_rows.blank recent) rows))
pages_all_example =
    pages_all sorted_rows mapper (pos 100) rows ordered (λ i. i) recent 1 2 (omega arith) refl
      (omega arith)
