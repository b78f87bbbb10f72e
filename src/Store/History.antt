-- ===== src/Store/History.antt =====
-- The store against the list of calls that led to it.
use mathlib.Core.Path.{subst}
use event_pipeline_extension.Prelude.{
  String, ◌≡◌, refl, Bool, false, ◌||◌, Option, none, some, List, [], ◌∷◌, arith, ◌==◌, string_eq,
  eq_law, if◌then◌else◌, inl, inr, Bool-cases, Option-cases,
}
use event_pipeline_extension.Dict.{get}
use event_pipeline_extension.Dict.Laws.{get-put}
use event_pipeline_extension.Store.{
  DateTime, EventRecord, EventStore, pending, processed, pending_record, processed_record,
  mark_pending, mark_processed, lookup, init,
}

pub data Call : Type 0 where
  pend : String → Call
  done : String → String → DateTime → Call

unfoldable pub perform : Call → EventStore → EventStore
perform (pend e) s = mark_pending e s
perform (done e k t) s = mark_processed e k t s

-- The latest call comes first.
unfoldable pub replay : List Call → EventStore
unfolding perform
replay [] = init
replay (c ∷ calls) = perform c (replay calls)

-- The object key and the time of the latest `mark_processed` of an event.
unfoldable pub last_done : String → List Call → Option (String × DateTime)
last_done e [] = none
last_done e (pend j ∷ calls) = last_done e calls
last_done e (done j k t ∷ calls) = if j == e then some (k, t) else last_done e calls

-- Some call named the event.
unfoldable pub seen : String → List Call → Bool
seen e [] = false
seen e (pend j ∷ calls) = j == e || seen e calls
seen e (done j k t ∷ calls) = j == e || seen e calls

-- What the calls amount to, whatever their order was.
unfoldable pub view : String → List Call → Option EventRecord
unfolding last_done seen
view e calls = elim (last_done e calls) [
  | some (k, t) ↦ some (processed_record e k t)
  | none ↦ if seen e calls then some (pending_record e) else none
]

pub view-pend :
    (e j : String) (s : EventStore)
    → lookup (mark_pending j s) e ≡ (
        if j == e
        then elim (lookup s j) [
          | none ↦ some (pending_record j)
          | some r ↦ elim r.status [ pending ↦ some (pending_record j) | processed ↦ some r ]
        ]
        else lookup s e)
unfolding lookup mark_pending
view-pend e j s = ground (arith, eq_law j e, get-put j e (pending_record j) s)

pub view-done :
    (e j k : String) (t : DateTime) (s : EventStore)
    → lookup (mark_processed j k t s) e
      ≡ (if j == e then some (processed_record j k t) else lookup s e)
unfolding lookup mark_processed
view-done e j k t s = get-put j e (processed_record j k t) s

-- After any calls, from any threads, a lookup of any event gives the processed record of its latest
-- `mark_processed` if there was one, else a pending record if a call named it, else nothing.
pub lookup-replay : (e : String) (calls : List Call) → lookup (replay calls) e ≡ view e calls
unfolding replay view
lookup-replay e [] = unfold lookup get in refl
lookup-replay e (pend j ∷ calls) =
    ground (arith, eq_law j e, view-pend e j (replay calls), lookup-replay e calls)
lookup-replay e (done j k t ∷ calls) =
    ground (arith, eq_law j e, view-done e j k t (replay calls), lookup-replay e calls)

-- What every stored record satisfies: it names its event, and it has an object key and a time
-- exactly if it is processed.
pub record IsWellFormed (e : String) (r : EventRecord) : Type 0 where
  pub named : r.event_id ≡ e
  pub unset : r.status ≡ pending → (r.object_key ≡ none) × (r.processed_at ≡ none)
  pub set :
      r.status ≡ processed
      → (k : String) × (t : DateTime) × (r.object_key ≡ some k) × (r.processed_at ≡ some t)

abbrev pub IsValid : EventStore → Type 0
IsValid s = (e : String) (r : EventRecord) → lookup s e ≡ some r → IsWellFormed e r

pending-IsWellFormed : (e : String) → IsWellFormed e (pending_record e)
pending-IsWellFormed e = record {
  named = refl;
  unset = λ _. (refl, refl);
  set = λ h. absurd (ground arith);
}

processed-IsWellFormed : (e k : String) (t : DateTime) → IsWellFormed e (processed_record e k t)
processed-IsWellFormed e k t = record {
  named = refl;
  unset = λ h. absurd (ground arith);
  set = λ _. (k, t, refl, refl);
}

IsWellFormed-subst :
    (e : String) (r q : EventRecord) → some q ≡ some r → IsWellFormed e q → IsWellFormed e r
IsWellFormed-subst e r q h w = subst (IsWellFormed e) (cc) w

-- Whatever the calls were, every stored record is well formed.
pub replay-IsValid : (calls : List Call) → IsValid (replay calls)
unfolding view
replay-IsValid calls e r h = elim (Option-cases (last_done e calls)) [
  | inl never ↦ elim (Bool-cases (seen e calls)) [
    | inl named ↦
        IsWellFormed-subst e r _ (ground (arith, lookup-replay e calls)) (pending-IsWellFormed e)
    | inr fresh ↦ cc (never, fresh, lookup-replay e calls)
  ]
  | inr (d, last) ↦
      IsWellFormed-subst e r (processed_record e d.0 d.1) (ground (arith, lookup-replay e calls))
        (processed-IsWellFormed e d.0 d.1)
]

-- Once processed, an event is never seen as pending again: a later call for any event leaves it
-- processed.
pub processed_stays :
    (c : Call) (s : EventStore) (e : String) (r : EventRecord)
    → lookup s e ≡ some r
    → r.status ≡ processed
    → (q : EventRecord) × (lookup (perform c s) e ≡ some q) × (q.status ≡ processed)
unfolding perform
processed_stays (pend j) s e r h p = (r, ground (arith, eq_law j e, view-pend e j s), p)
processed_stays (done j k t) s e r h p = elim (Bool-cases (j == e)) [
  | inl same ↦ (processed_record j k t, ground (arith, view-done e j k t s), refl)
  | inr other ↦ (r, ground (arith, view-done e j k t s), p)
]
