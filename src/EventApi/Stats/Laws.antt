-- ===== src/EventApi/Stats/Laws.antt =====
-- When the counts by type are those of the events.
use event_pipeline_extension.Prelude.{
  ℕ, ◌+◌, ◌<◌, String, ◌≡◌, ◌≢◌, ◌⊎◌, refl, sym, ap, inl, inr, Option, none, some, List, [], ◌∷◌,
  map, IsIn, All-IsIn, ◌==◌, string_eq, option_eq, eq_law, arith, Bool-cases, Option-cases, ltb,
  if◌then◌else◌,
}
use event_pipeline_extension.Dict.{Dict, get, put}
use event_pipeline_extension.Dict.Laws.{get-put}
use event_pipeline_extension.EventApi.{Event}
use event_pipeline_extension.EventApi.Stats.{
  tally, IsGrouping, Database, label, label_group, put_all, count_by_type, summary,
}

-- The events with this label.
abbrev pub labelled : String → List Event → ℕ
labelled l [] = 0
labelled l (e ∷ rows) = (if label e.type == l then 1 else 0) + labelled l rows

-- The number of a label in the response, 0 if the label is not there.
abbrev pub number : Option ℕ → ℕ
number none = 0
number (some n) = n

labelled-tally :
    (l : String) (rows : List Event)
    → labelled l rows ≡ tally (some l) rows + (if "unknown" == l then tally none rows else 0)
labelled-tally l [] = ground arith
labelled-tally l (e ∷ rows) = ground (
  arith,
  labelled-tally l rows,
  eq_law (label e.type) l,
  eq_law e.type (some l),
  eq_law "unknown" l,
)

put_all-from :
    (l : String) (n : ℕ) (rows : List (String × ℕ)) (d : Dict String ℕ)
    → get l (put_all rows d) ≡ some n
    → (get l d ≡ some n) ⊎ IsIn (l, n) rows
unfolding put_all
put_all-from l n [] d e = inl e
put_all-from l n ((k, m) ∷ rows) d e = elim (put_all-from l n rows (put k m d) e) [
  | inl h ↦ ground (arith, get-put k l m d, eq_law k l)
  | inr i ↦ inr (inr i)
]

-- What is there stays there.
put_all_keeps :
    (l : String) (rows : List (String × ℕ)) (d : Dict String ℕ)
    → get l d ≢ none
    → get l (put_all rows d) ≢ none
unfolding put_all
put_all_keeps l [] d h = h
put_all_keeps l ((k, m) ∷ rows) d h =
    put_all_keeps l rows (put k m d) (ground (arith, get-put k l m d))

put_all_has :
    (l : String) (n : ℕ) (rows : List (String × ℕ)) (d : Dict String ℕ)
    → IsIn (l, n) rows
    → get l (put_all rows d) ≢ none
unfolding put_all
put_all_has l n ((k, m) ∷ rows) d (inl same) =
    put_all_keeps l rows (put k m d) (ground (arith, get-put k l m d, eq_law k l))
put_all_has l n ((k, m) ∷ rows) d (inr i) = put_all_has l n rows (put k m d) i
put_all_has l n [] d i = absurd (i tt)

label_group-IsIn :
    (l : String) (n : ℕ) (groups : List (Option String × ℕ))
    → IsIn (l, n) (map label_group groups)
    → (t : Option String) × IsIn (t, n) groups × (label t ≡ l)
label_group-IsIn l n [] i = absurd (i tt)
label_group-IsIn l n ((t, m) ∷ groups) (inl same) =
    (t, inl (ap (λ x. (t, x)) (ap (λ g. g.1) same)), sym (ap (λ g. g.0) same))
label_group-IsIn l n (g ∷ groups) (inr i) =
    let v = label_group-IsIn l n groups i in (v.0, inr v.1, v.2)

IsIn-label_group :
    (t : Option String) (n : ℕ) (groups : List (Option String × ℕ))
    → IsIn (t, n) groups
    → IsIn (label t, n) (map label_group groups)
IsIn-label_group t n [] i = absurd (i tt)
IsIn-label_group t n (g ∷ groups) (inl same) = inl (ap label_group same)
IsIn-label_group t n (g ∷ groups) (inr i) = inr (IsIn-label_group t n groups i)

module _ (db : Database) (rows : List Event) (grouping : IsGrouping rows (db.group rows)) where
  -- The number that the response gives for a label.
  abbrev pub reported : ℕ → String → ℕ
  reported now l = number (get l (summary db now rows).count_by_type)

  -- The group that a number of the response comes from.
  record Source (l : String) (n : ℕ) : Type 0 where
    type : Option String
    named : label type ≡ l
    counted : n ≡ tally type rows
    positive : 0 < n

  some_group :
      (l : String) (n : ℕ)
      → get l (put_all (map label_group (db.group rows)) []) ≡ some n
      → Source l n
  unfolding get
  some_group l n e = elim (put_all-from l n (map label_group (db.group rows)) [] e) [
    | inl h ↦ cc
    | inr i ↦
        let (t, there, named) = label_group-IsIn l n (db.group rows) i in
        let c =
          All-IsIn (λ g. (g.1 ≡ tally g.0 rows) × (0 < g.1)) (t, n) (db.group rows) grouping.counted
            there in
        record { type = t; named = named; counted = c.0; positive = c.1 }
  ]

  no_group :
      (t : Option String)
      → get (label t) (put_all (map label_group (db.group rows)) []) ≡ none
      → tally t rows ≡ 0
  no_group t e = elim (Bool-cases (ltb 0 (tally t rows))) [
    | inl there ↦ absurd (
        put_all_has (label t) (tally t rows) (map label_group (db.group rows)) []
          (IsIn-label_group t (tally t rows) (db.group rows) (grouping.complete t (ground arith)))
          e)
    | inr not_there ↦ ground arith
  ]

  -- A label is clear unless it is "unknown" and there are both events without a type and events of a
  -- type of that name.
  abbrev pub IsClear : String → Type 0
  IsClear l = (l ≢ "unknown") ⊎ ((tally none rows ≡ 0) ⊎ (tally (some "unknown") rows ≡ 0))

  reported_some :
      (l : String) (n : ℕ) (t : Option String)
      → label t ≡ l
      → n ≡ tally t rows
      → 0 < n
      → IsClear l
      → n ≡ labelled l rows
  reported_some l n (some k) named counted positive clear =
      ground (arith, labelled-tally l rows, eq_law "unknown" l)
  reported_some l n none named counted positive clear =
      ground (arith, labelled-tally l rows, eq_law "unknown" l)

  nothing_labelled :
      (l : String)
      → get l (put_all (map label_group (db.group rows)) []) ≡ none
      → labelled l rows ≡ 0
  nothing_labelled l nothing = elim (Bool-cases ("unknown" == l)) [
    | inl same ↦
        let e : l ≡ "unknown" = sym ((eq_law "unknown" l).0 same) in
        let none_untyped : tally none rows ≡ 0 = no_group none (rw e at nothing) in
        rw (labelled-tally l rows, same) (omega (arith, none_untyped, no_group (some l) nothing))
    | inr other ↦ rw (labelled-tally l rows, other) (omega (arith, no_group (some l) nothing))
  ]

  one_kind :
      (n : ℕ) (t : Option String)
      → label t ≡ "unknown"
      → n ≡ tally t rows
      → 0 < tally none rows
      → 0 < tally (some "unknown") rows
      → n < labelled "unknown" rows
  one_kind n none e counted untyped named = ground (arith, labelled-tally "unknown" rows)
  one_kind n (some k) e counted untyped named =
      let same : tally (some k) rows ≡ tally (some "unknown") rows = rw e refl in
      ground (arith, labelled-tally "unknown" rows)

  -- The response counts the events of each label that is clear: if the database groups as it says, the
  -- number of a label is that of the events with this type, or without one for "unknown", and a label
  -- that is missing has none.
  pub summary-labelled : (now : ℕ) (l : String) → IsClear l → reported now l ≡ labelled l rows
  unfolding summary count_by_type
  summary-labelled now l clear =
      elim (Option-cases (get l (put_all (map label_group (db.group rows)) []))) [
        | inl nothing ↦ rw nothing (sym (nothing_labelled l nothing))
        | inr (n, e) ↦
            let s = some_group l n e in
            rw e (reported_some l n s.type s.named s.counted s.positive clear)
      ]

  -- If there are both events without a type and events of the type "unknown", and the database groups
  -- as it says, the response gives fewer events for "unknown" than there are under that label: the
  -- number of one kind has taken the place of the other's.
  pub summary_undercounts :
      (now : ℕ)
      → 0 < tally none rows
      → 0 < tally (some "unknown") rows
      → reported now "unknown" < labelled "unknown" rows
  unfolding summary count_by_type
  summary_undercounts now untyped named =
      elim (Option-cases (get "unknown" (put_all (map label_group (db.group rows)) []))) [
        | inl nothing ↦ absurd (omega (arith, no_group none nothing))
        | inr (n, e) ↦
            let s = some_group "unknown" n e in
            rw e (one_kind n s.type s.named s.counted untyped named)
      ]
