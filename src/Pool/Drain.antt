-- ===== src/Pool/Drain.antt =====
-- `shutdown`: once the threads have returned, nothing that was submitted is left.
use mathlib.Core.List.{append-nil, append_assoc}
use mathlib.Core.Path.{subst, subst₂}
use event_pipeline_extension.Prelude.{
  ℕ, zero, suc, ◌<◌, ◌≡◌, ◌≢◌, refl, ap, ◌∙◌, true, some, List, [], ◌∷◌, ◌++◌, arith, nat_beq,
  nat_beq_iff, Bool-cases, inl, inr,
}
use event_pipeline_extension.Pool.{
  Key, Entry, item, sentinel, Thread, waiting, exited, WorkerPool, update, begin, put, close, take,
  finish, all_exited, route,
}
use event_pipeline_extension.Pool.Steps.{
  Event, Step, submits, takes, finishes, closes, submissions, completions,
}
use event_pipeline_extension.Pool.Order.{
  items, items-append, unfinished, of_key, put-eq-some, take_cases, InOrder, Step-InOrder,
  Step-SameSize, InOrder-of_key,
}
use event_pipeline_extension.Pool.Bounds.{route-lt}
use event_pipeline_extension.Pool.Runs.{Reach, Reach-IsValid}

module _ {A : Type 0} where
  -- No item stands behind a sentinel.
  abbrev pub IsLast : List (Entry A) → Type 0
  IsLast [] = Unit
  IsLast (item a ∷ q) = IsLast q
  IsLast (sentinel ∷ q) = items q ≡ []

  IsLast-close : (q : List (Entry A)) → IsLast q → IsLast (q ++ sentinel ∷ [])
  IsLast-close [] h = refl
  IsLast-close (item a ∷ q) h = IsLast-close q h
  IsLast-close (sentinel ∷ q) h = rw (items-append q, h)

  -- A thread that has returned left no item behind.
  pub record IsQuiet (t : Thread A) (q : List (Entry A)) : Type 0 where
    pub last : IsLast q
    pub drained : t ≡ exited → items q ≡ []

  IsQuiet-close : (t : Thread A) (q : List (Entry A)) → IsQuiet t q → IsQuiet t (q ++ sentinel ∷ [])
  IsQuiet-close t q h = record {
    last = IsLast-close q h.last;
    drained = λ e. rw (items-append q, h.drained e);
  }

  IsQuiet-begin : (e : Entry A) (rest : List (Entry A)) → IsLast (e ∷ rest) → IsQuiet (begin e) rest
  IsQuiet-begin (item a) rest l = record { last = l; drained = λ e. cc }
  IsQuiet-begin sentinel rest l = record { last = items-IsLast rest l; drained = λ _. l }
    where
      items-IsLast : (q : List (Entry A)) → items q ≡ [] → IsLast q
      items-IsLast [] h = tt
      items-IsLast (item a ∷ q) h = cc
      items-IsLast (sentinel ∷ q) h = h

  -- No thread has returned, and no sentinel is queued.
  abbrev pub IsPlain : List (Entry A) → Type 0
  IsPlain [] = Unit
  IsPlain (item a ∷ q) = IsPlain q
  IsPlain (sentinel ∷ q) = ⊥

  pub record IsOpen (p : WorkerPool A) : Type 0 where
    pub plain : (i : ℕ) → IsPlain (p.queues i)
    pub running : (i : ℕ) → p.threads i ≢ exited

  IsPlain-IsLast : (q : List (Entry A)) → IsPlain q → IsLast q
  IsPlain-IsLast [] h = tt
  IsPlain-IsLast (item a ∷ q) h = IsPlain-IsLast q h
  IsPlain-IsLast (sentinel ∷ q) h = absurd h

  abbrev pub AllQuiet : WorkerPool A → Type 0
  AllQuiet p = (i : ℕ) → IsQuiet (p.threads i) (p.queues i)

  pub IsOpen-AllQuiet : (p : WorkerPool A) → IsOpen p → AllQuiet p
  IsOpen-AllQuiet p o i = record {
    last = IsPlain-IsLast (p.queues i) (o.plain i);
    drained = λ e. absurd (o.running i e);
  }

  pub close-AllQuiet :
      (j : ℕ) (p : WorkerPool A) {p' : WorkerPool A}
      → put j sentinel p ≡ some p'
      → AllQuiet p
      → AllQuiet p'
  close-AllQuiet j p h q i = elim (Bool-cases (nat_beq j i)) [
    | inl here ↦
        rw (put-eq-some j sentinel p h, here, (nat_beq_iff j i).0 here) (IsQuiet-close _ _ (q i))
    | inr other ↦ rw (put-eq-some j sentinel p h, other) (q i)
  ]

  pub take-AllQuiet :
      (j : ℕ) (p : WorkerPool A) {p' : WorkerPool A} → take j p ≡ some p' → AllQuiet p → AllQuiet p'
  unfolding take
  take-AllQuiet j p h q i =
      let (e, rest, idle, full, after) = take_cases j p (p.threads j) (p.queues j) h in
      elim (Bool-cases (nat_beq j i)) [
        | inl here ↦ rw (after, here) (IsQuiet-begin e rest (subst IsLast full (q j).last))
        | inr other ↦ rw (after, other) (q i)
      ]

  pub finish-eq :
      (j : ℕ) (a : A) (p : WorkerPool A) {p' : WorkerPool A}
      → finish j p ≡ some (a, p')
      → p' ≡ record p { threads = update p.threads j waiting }
  unfolding finish
  finish-eq j a p h = ground arith

  pub finish-AllQuiet :
      (j : ℕ) (a : A) (p : WorkerPool A) {p' : WorkerPool A}
      → finish j p ≡ some (a, p')
      → AllQuiet p
      → AllQuiet p'
  finish-AllQuiet j a p h q i = elim (Bool-cases (nat_beq j i)) [
    | inl here ↦ rw (finish-eq j a p h, here) (record { last = (q i).last; drained = λ e. cc })
    | inr other ↦ rw (finish-eq j a p h, other) (q i)
  ]

  pub all_exited-exited :
      (n : ℕ) (p : WorkerPool A) (i : ℕ) → all_exited n p ≡ true → i < n → p.threads i ≡ exited
  unfolding all_exited
  all_exited-exited zero p i h lt = absurd (omega arith)
  all_exited-exited (suc n) p i h lt = elim (Bool-cases (nat_beq i n)) [
    | inl here ↦ ground arith
    | inr other ↦ ground (arith, all_exited-exited n p i)
  ]

module _ {A : Type 0} (key_of : A → Key) where
  -- A run in which nothing more is submitted, with the items whose work ends in it.
  pub data Drain (p : WorkerPool A) : WorkerPool A → List A → Type 0 where
    here : Drain p p []
    next :
        {p' p'' : WorkerPool A} {done : List A} {ev : Event A}
        → Drain p p' done
        → Step key_of p' ev p''
        → submissions ev ≡ []
        → Drain p p'' (done ++ completions ev)

  Step-AllQuiet :
      {p p' : WorkerPool A} {ev : Event A}
      → Step key_of p ev p'
      → submissions ev ≡ []
      → AllQuiet p
      → AllQuiet p'
  Step-AllQuiet {p} (submits a e) none_more q = cc
  Step-AllQuiet {p} (takes i lt e) none_more q = take-AllQuiet i p e q
  Step-AllQuiet {p} (finishes i a success lt e) none_more q = finish-AllQuiet i a p e q
  Step-AllQuiet {p} (closes i lt e) none_more q = unfold close in close-AllQuiet i p e q

  record Drained (p p' : WorkerPool A) (all done more : List A) : Type 0 where
    workers : p'.num_workers ≡ p.num_workers
    order : InOrder key_of p' all (done ++ more)
    quiet : AllQuiet p'

  Drain-Drained :
      {p p' : WorkerPool A} (all done : List A) {more : List A}
      → InOrder key_of p all done
      → AllQuiet p
      → Drain p p' more
      → Drained p p' all done more
  Drain-Drained all done o q here = record { workers = refl; order = rw append-nil o; quiet = q }
  Drain-Drained all done o q (next {p''} {done = more} {ev} d st e) =
      let v = Drain-Drained all done o q d in
      let same = ap (λ l. all ++ l) e ∙ append-nil all in
      record {
        workers = (Step-SameSize key_of st).0 ∙ v.workers;
        order =
            subst₂ (InOrder key_of p'') same (append_assoc done more (completions ev))
              (Step-InOrder key_of all (done ++ more) st v.order);
        quiet = Step-AllQuiet st e v.quiet;
      }

  -- Graceful shutdown: in every run of a pool, from a moment at which no sentinel is queued and no
  -- thread has returned, if nothing more is submitted and every thread has returned in the end, then
  -- for each key the work of all items ever submitted has ended, in the order of submission.
  pub shutdown_drains :
      {n size : ℕ} {p p' : WorkerPool A} {all done more : List A}
      → Reach key_of n size p all done
      → IsOpen p
      → Drain p p' more
      → all_exited p'.num_workers p' ≡ true
      → (k : Key) → of_key key_of k all ≡ of_key key_of k (done ++ more)
  shutdown_drains {n} {p} {p'} {all} {done} {more} r o d gone k =
      let v = Reach-IsValid key_of r in
      let w = Drain-Drained all done v.order (IsOpen-AllQuiet p o) d in
      let i = route p'.num_workers k in
      let lt : i < p'.num_workers =
        route-lt p'.num_workers k (omega (arith, v.positive.0, v.workers, w.workers)) in
      let out = all_exited-exited p'.num_workers p' i gone lt in
      let nothing : unfinished p' i ≡ [] = rw (out, (w.quiet i).drained out) in
      InOrder-of_key key_of p' all (done ++ more) w.order k
      ∙ ap (λ l. of_key key_of k (done ++ more) ++ of_key key_of k l) nothing
      ∙ append-nil _
