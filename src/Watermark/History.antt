-- ===== src/Watermark/History.antt =====
-- The watermark against the list of calls that led to it.
use mathlib.Core.Path.{subst}
use event_pipeline_extension.Prelude.{
  ap, ℕ, ◌+◌, ◌≤◌, ◌≡◌, refl, Bool, true, false, ◌||◌, ◌&&◌, Option, none, some, List, [], ◌∷◌,
  arith, Eq, ◌==◌, eq_law, nat_beq, if◌then◌else◌, inl, inr, Option-cases,
}
use event_pipeline_extension.Dict.{get}
use event_pipeline_extension.Dict.Laws.{get-put}
use event_pipeline_extension.Watermark.{
  PartitionState, OffsetWatermark, init, fresh, complete_partition, observe, complete,
  next_to_commit,
}
use event_pipeline_extension.Watermark.Loop.{
  Tracks, IsSettled, fresh-Tracks, fresh-IsSettled, complete_partition-Tracks,
  complete_partition-IsSettled,
}
use event_pipeline_extension.Watermark.Frontier.{IsFrontier, IsFrontier-unique, Tracks-IsFrontier}

-- A call of a method, by the consumer or by a worker.
pub data Call (K : Type 0) : Type 0 where
  saw : K → ℕ → Call K
  completed : K → ℕ → Call K

-- What `observe` and `complete` make of the state of their own partition.
abbrev observed : ℕ → Option PartitionState → Option PartitionState
observed offset none = some (fresh offset)
observed offset (some s) = some s

abbrev completed_at : ℕ → Option PartitionState → Option PartitionState
completed_at offset none = some (fresh (offset + 1))
completed_at offset (some s) = some (complete_partition offset s)

-- The state of a partition agrees with where it starts and with what is done.
abbrev Agrees : Option ℕ → (ℕ → Bool) → Option PartitionState → Type 0
Agrees none d none = (o : ℕ) → d o ≡ false
Agrees (some first) d (some s) = Tracks first d s × IsSettled s
Agrees _ d _ = ⊥

abbrev pub start_or : Option ℕ → Option ℕ → Option ℕ
start_or (some first) next = some first
start_or none next = next

Agrees-observed :
    (same : Bool) (offset : ℕ) (f : Option ℕ) (d : ℕ → Bool) (g : Option PartitionState)
    → Agrees f d g
    → Agrees
        (start_or f (if same then some offset else none))
        d
        (if same then observed offset g else g)
Agrees-observed true offset none d none a =
    (fresh-Tracks offset d (λ o p. a o), fresh-IsSettled offset)
Agrees-observed true offset (some first) d (some s) a = a
Agrees-observed false offset none d none a = a
Agrees-observed false offset (some first) d (some s) a = a
Agrees-observed _ offset none d (some s) a = absurd a
Agrees-observed _ offset (some first) d none a = absurd a

Agrees-completed :
    (same : Bool) (offset : ℕ) (f : Option ℕ) (d : ℕ → Bool) (g : Option PartitionState)
    → Agrees f d g
    → Agrees
        (start_or f (if same then some (offset + 1) else none))
        (λ o. (same && nat_beq offset o) || d o)
        (if same then completed_at offset g else g)
Agrees-completed true offset none d none a =
    (fresh-Tracks (offset + 1) _ (λ o p. ground (arith, a o)), fresh-IsSettled (offset + 1))
Agrees-completed true offset (some first) d (some s) a =
    (complete_partition-Tracks offset s a.0, complete_partition-IsSettled offset s a.1)
Agrees-completed false offset none d none a = a
Agrees-completed false offset (some first) d (some s) a = a
Agrees-completed _ offset none d (some s) a = absurd a
Agrees-completed _ offset (some first) d none a = absurd a

-- The offset to commit of a partition is what its start and its completed offsets determine.
abbrev pub Matches : Option ℕ → (ℕ → Bool) → Option ℕ → Type 0
Matches none d none = Unit
Matches (some first) d (some n) = IsFrontier first d n
Matches _ d _ = ⊥

abbrev next_of : Option PartitionState → Option ℕ
next_of g = elim g [ none ↦ none | some s ↦ some s.next_to_commit ]

Agrees-Matches :
    (f : Option ℕ) (d : ℕ → Bool) (g : Option PartitionState)
    → Agrees f d g
    → Matches f d (next_of g)
Agrees-Matches none d none a = tt
Agrees-Matches (some first) d (some s) a = Tracks-IsFrontier s a.0 a.1
Agrees-Matches none d (some s) a = a
Agrees-Matches (some first) d none a = a

Matches-unique :
    (f f' : Option ℕ) (d d' : ℕ → Bool) (m n : Option ℕ)
    → f ≡ f'
    → ((o : ℕ) → d o ≡ d' o)
    → Matches f d m
    → Matches f' d' n
    → m ≡ n
Matches-unique none none d d' none none s e a b = refl
Matches-unique (some first) (some first') d d' (some m) (some n) s e a b =
    ap some (IsFrontier-unique m n e a (subst (λ x. IsFrontier x d' n) (cc) b))
Matches-unique none f' d d' (some m) n s e a b = absurd a
Matches-unique (some first) f' d d' none n s e a b = absurd a
Matches-unique f none d d' m (some n) s e a b = absurd b
Matches-unique f (some first) d d' m none s e a b = absurd b
Matches-unique none (some first) d d' m n s e a b = cc
Matches-unique (some first) none d d' m n s e a b = cc

Matches-mono :
    (f f' : Option ℕ) (d d' : ℕ → Bool) (next : Option ℕ)
    → f' ≡ start_or f next
    → (m? : Option ℕ) (n : ℕ) {n? : Option ℕ} → n? ≡ some n
    → ((o : ℕ) → d o ≡ true → d' o ≡ true)
    → Matches f d n?
    → Matches f' d' m?
    → (m : ℕ) × (m? ≡ some m) × (n ≤ m)
Matches-mono none f' d d' next s m? n {n? = none} h e a b = cc
Matches-mono none f' d d' next s m? n {n? = some k} h e a b = absurd a
Matches-mono (some first) none d d' next s m? n h e a b = cc
Matches-mono (some first) (some first') d d' next s none n h e a b = absurd b
Matches-mono (some first) (some first') d d' next s (some m) n {n? = none} h e a b = absurd a
Matches-mono (some first) (some first') d d' next s (some m) n {n? = some k} h e a b =
    (m, refl, ground (arith, e m, a.below m, b.start, b.stops))

module _ {K : Type 0} ⦃e : Eq K⦄ where
  unfoldable pub perform : Call K → OffsetWatermark K → OffsetWatermark K
  perform (saw tp offset) w = observe tp offset w
  perform (completed tp offset) w = complete tp offset w

  -- The latest call comes first.
  unfoldable pub replay : List (Call K) → OffsetWatermark K
  unfolding perform
  replay [] = init
  replay (c ∷ calls) = perform c (replay calls)

  -- Where a call on a partition that was not seen before puts the start.
  abbrev pub start_of : K → Call K → Option ℕ
  start_of tp (saw k offset) = if k == tp then some offset else none
  start_of tp (completed k offset) = if k == tp then some (offset + 1) else none

  -- The start of a partition is fixed by the first call that names it.
  unfoldable pub start : K → List (Call K) → Option ℕ
  start tp [] = none
  start tp (c ∷ calls) = start_or (start tp calls) (start_of tp c)

  abbrev pub done_by : K → Call K → ℕ → Bool
  done_by tp (saw k offset) o = false
  done_by tp (completed k offset) o = (k == tp) && nat_beq offset o

  -- Some call completed the offset.
  unfoldable pub done : K → List (Call K) → ℕ → Bool
  done tp [] = λ o. false
  done tp (c ∷ calls) = λ o. done_by tp c o || done tp calls o

  get-observe :
      (k tp : K) (offset : ℕ) (w : OffsetWatermark K)
      → get tp (observe k offset w) ≡ (if k == tp then observed offset (get tp w) else get tp w)
  unfolding observe
  get-observe k tp offset w = ground (arith, eq_law k tp, get-put k tp (fresh offset) w)

  get-complete :
      (k tp : K) (offset : ℕ) (w : OffsetWatermark K)
      → get tp (complete k offset w)
        ≡ (if k == tp then completed_at offset (get tp w) else get tp w)
  unfolding complete
  get-complete k tp offset w = elim (Option-cases (get k w)) [
    | inl new ↦ ground (arith, eq_law k tp, get-put k tp (fresh (offset + 1)) w)
    | inr (s, old) ↦ ground (arith, eq_law k tp, get-put k tp (complete_partition offset s) w)
  ]

  get-replay :
      (tp : K) (calls : List (Call K))
      → Agrees (start tp calls) (done tp calls) (get tp (replay calls))
  unfolding replay start done
  get-replay tp [] = unfold get in λ o. refl
  get-replay tp (saw k offset ∷ calls) =
      rw get-observe (Agrees-observed (k == tp) offset _ _ _ (get-replay tp calls))
  get-replay tp (completed k offset ∷ calls) =
      rw get-complete (Agrees-completed (k == tp) offset _ _ _ (get-replay tp calls))

  -- After any calls in any order, a partition that no call named has no offset to commit, and any
  -- other has exactly one: the first offset, from the partition's start on, that no call completed.
  pub next_to_commit-frontier :
      (tp : K) (calls : List (Call K))
      → Matches (start tp calls) (done tp calls) (next_to_commit tp (replay calls))
  unfolding next_to_commit
  next_to_commit-frontier tp calls = Agrees-Matches _ _ _ (get-replay tp calls)

  -- The order of the calls does not matter, nor how often an offset was completed: two runs that
  -- start a partition at one offset and complete the same offsets of it commit the same.
  pub next_to_commit_confluent :
      (tp : K) (calls calls' : List (Call K))
      → start tp calls ≡ start tp calls'
      → ((o : ℕ) → done tp calls o ≡ done tp calls' o)
      → next_to_commit tp (replay calls) ≡ next_to_commit tp (replay calls')
  next_to_commit_confluent tp calls calls' s d =
      Matches-unique _ _ _ _ _ _ s d (next_to_commit-frontier tp calls)
        (next_to_commit-frontier tp calls')

  start-cons :
      (tp : K) (c : Call K) (calls : List (Call K))
      → start tp (c ∷ calls) ≡ start_or (start tp calls) (start_of tp c)
  unfolding start
  start-cons tp c calls = refl

  done-cons :
      (tp : K) (c : Call K) (calls : List (Call K)) (o : ℕ)
      → done tp calls o ≡ true
      → done tp (c ∷ calls) o ≡ true
  unfolding done
  done-cons tp c calls o p = ground arith

  -- No call moves the offset to commit of any partition back.
  pub next_to_commit_mono :
      (tp : K) (c : Call K) (calls : List (Call K)) (n : ℕ)
      → next_to_commit tp (replay calls) ≡ some n
      → (m : ℕ) × (next_to_commit tp (replay (c ∷ calls)) ≡ some m) × (n ≤ m)
  next_to_commit_mono tp c calls n h =
      Matches-mono (start tp calls) (start tp (c ∷ calls)) (done tp calls) (done tp (c ∷ calls))
        (start_of tp c) (start-cons tp c calls) (next_to_commit tp (replay (c ∷ calls))) n h
        (done-cons tp c calls) (next_to_commit-frontier tp calls)
        (next_to_commit-frontier tp (c ∷ calls))
