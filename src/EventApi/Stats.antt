-- ===== src/EventApi/Stats.antt =====
-- stats/StatsService.java and the queries of event/EventRepository.java: the numbers of events, by type
-- and by time.
pub mod Laws
use event_pipeline_extension.Prelude.{
  ℕ, ◌+◌, ◌-◌, ◌*◌, ◌≤◌, ◌<◌, String, ◌≡◌, ◌⊎◌, Bool, true, false, Option, none, some, List, [],
  ◌∷◌, map, length, leb, keep, take, All, IsIn, ◌==◌, string_eq, option_eq, if◌then◌else◌,
}
use event_pipeline_extension.Dict.{Dict, get, put}
use event_pipeline_extension.EventApi.{Event}

-- The events of a type, `none` for those whose type is NULL.
abbrev pub tally : Option String → List Event → ℕ
tally t [] = 0
tally t (e ∷ rows) = (if e.type == t then 1 else 0) + tally t rows

-- `GROUP BY e.type` with `COUNT(e)` by the database, in an order of its own: the group of each type that
-- some row has, with the number of its rows.
pub record IsGrouping (rows : List Event) (groups : List (Option String × ℕ)) : Type 0 where
  pub counted : All (λ g. (g.1 ≡ tally g.0 rows) × (0 < g.1)) groups
  pub complete : (t : Option String) → 0 < tally t rows → IsIn (t, tally t rows) groups

-- What the queries leave to the database: the grouping, and `ORDER BY c DESC`, which leaves open how
-- types with one count stand.
pub record Database : Type 0 where
  pub group : List Event → List (Option String × ℕ)
  pub order_by_count : List (String × ℕ) → List (String × ℕ)

-- `COALESCE(e.type, 'unknown')`
abbrev pub label : Option String → String
label none = "unknown"
label (some t) = t

abbrev pub label_group : Option String × ℕ → String × ℕ
label_group g = (label g.0, g.1)

-- `createdAt >= since`
abbrev pub is_since : ℕ → Event → Bool
is_since since e = leb since e.created_at

-- `toCountMap`
unfoldable pub put_all : List (String × ℕ) → Dict String ℕ → Dict String ℕ
put_all [] result = result
put_all ((k, n) ∷ rows) result = put_all rows (put k n result)

pub record Summary : Type 0 where
  pub total_count : ℕ
  pub count_by_type : Dict String ℕ
  pub count_last_24_hours : ℕ
  pub top_5_types_last_7_days : List (String × ℕ)

module _ (db : Database) where
  unfoldable pub count_by_type : List Event → List (String × ℕ)
  count_by_type rows = map label_group (db.group rows)

  unfoldable pub count_since : ℕ → List Event → ℕ
  count_since since rows = length (keep (is_since since) rows)

  unfoldable pub top_types_since : ℕ → ℕ → List Event → List (String × ℕ)
  top_types_since since limit rows =
      take limit (db.order_by_count (map label_group (db.group (keep (is_since since) rows))))

  -- `summary`. No event is older than the epoch, so that a difference that stops at 0 selects the same.
  unfoldable pub summary : ℕ → List Event → Summary
  unfolding put_all count_by_type count_since top_types_since
  summary now rows = record {
    total_count = length rows;
    count_by_type = put_all (count_by_type rows) [];
    count_last_24_hours = count_since (now - 24 * 3600000) rows;
    top_5_types_last_7_days = top_types_since (now - 7 * 24 * 3600000) 5 rows;
  }
