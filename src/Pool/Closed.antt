-- ===== src/Pool/Closed.antt =====
-- A worker that `shutdown` has sent its sentinel returns sooner or later, whatever the order.
use mathlib.Core.Path.{subst, subst₂}
use event_pipeline_extension.Prelude.{
  ℕ, zero, suc, ◌<◌, ◌≡◌, ◌≢◌, refl, sym, none, true, some, List, [], ◌∷◌, ◌++◌, arith, nat_beq,
  nat_beq_iff, nat_beq_self, Bool-cases, inl, inr,
}
use event_pipeline_extension.Pool.{
  Key, Entry, item, sentinel, Thread, waiting, working, unstarted, exited, WorkerPool, put, submit,
  take, finish, close, begin, all_exited,
}
use event_pipeline_extension.Pool.Steps.{Event, Step, submits, takes, finishes, closes}
use event_pipeline_extension.Pool.Order.{put-eq-some}
use event_pipeline_extension.Pool.Drain.{finish-eq}
use event_pipeline_extension.Pool.Runs.{Reach, Reach-IsValid}
use event_pipeline_extension.Pool.Running.{taken_cases, Reach-IsRunning}
use event_pipeline_extension.Pool.Blocked.{Work, unmoved, took, ended}
use event_pipeline_extension.Pool.Measure.{finish-busy}
use event_pipeline_extension.Pool.Termination.{IsAtRest, Work-IsRunning, Work-workers}
use event_pipeline_extension.Pool.Progress.{all_exited-suc}

module _ {A : Type 0} where
  abbrev pub HasSentinel : List (Entry A) → Type 0
  HasSentinel [] = ⊥
  HasSentinel (item a ∷ q) = HasSentinel q
  HasSentinel (sentinel ∷ q) = Unit

  -- The thread has returned, or a sentinel is in its queue.
  abbrev pub IsClosed : Thread A → List (Entry A) → Type 0
  IsClosed exited q = Unit
  IsClosed unstarted q = HasSentinel q
  IsClosed waiting q = HasSentinel q
  IsClosed (working a) q = HasSentinel q

  abbrev pub IsClosedAt : WorkerPool A → ℕ → Type 0
  IsClosedAt p i = IsClosed (p.threads i) (p.queues i)

  HasSentinel-append :
      (q : List (Entry A)) (e : Entry A) → HasSentinel q → HasSentinel (q ++ e ∷ [])
  HasSentinel-append [] e h = absurd h
  HasSentinel-append (item a ∷ q) e h = HasSentinel-append q e h
  HasSentinel-append (sentinel ∷ q) e h = tt

  HasSentinel-last : (q : List (Entry A)) → HasSentinel (q ++ sentinel ∷ [])
  HasSentinel-last [] = tt
  HasSentinel-last (item a ∷ q) = HasSentinel-last q
  HasSentinel-last (sentinel ∷ q) = tt

  HasSentinel-IsClosed : (t : Thread A) (q : List (Entry A)) → HasSentinel q → IsClosed t q
  HasSentinel-IsClosed exited q h = tt
  HasSentinel-IsClosed unstarted q h = h
  HasSentinel-IsClosed waiting q h = h
  HasSentinel-IsClosed (working a) q h = h

  IsClosed-append :
      (t : Thread A) (q : List (Entry A)) (e : Entry A) → IsClosed t q → IsClosed t (q ++ e ∷ [])
  IsClosed-append exited q e h = tt
  IsClosed-append unstarted q e h = HasSentinel-append q e h
  IsClosed-append waiting q e h = HasSentinel-append q e h
  IsClosed-append (working a) q e h = HasSentinel-append q e h

  IsClosed-begin :
      (e : Entry A) (rest : List (Entry A)) → HasSentinel (e ∷ rest) → IsClosed (begin e) rest
  IsClosed-begin (item a) rest h = h
  IsClosed-begin sentinel rest h = tt

  put-IsClosedAt :
      (j : ℕ) (e : Entry A) (p : WorkerPool A) (i : ℕ) {p' : WorkerPool A}
      → put j e p ≡ some p'
      → IsClosedAt p i
      → IsClosedAt p' i
  put-IsClosedAt j e p i h c = elim (Bool-cases (nat_beq j i)) [
    | inl here ↦
        rw (put-eq-some j e p h, here, (nat_beq_iff j i).0 here)
          (IsClosed-append (p.threads i) (p.queues i) e c)
    | inr other ↦ rw (put-eq-some j e p h, other) c
  ]

  -- A sentinel that is put closes its worker.
  pub close-IsClosedAt :
      (i : ℕ) (p : WorkerPool A) {p' : WorkerPool A} → close i p ≡ some p' → IsClosedAt p' i
  unfolding close
  close-IsClosedAt i p h =
      rw (put-eq-some i sentinel p h, nat_beq_self i)
        (HasSentinel-IsClosed (p.threads i) (p.queues i ++ sentinel ∷ [])
          (HasSentinel-last (p.queues i)))

  take-IsClosedAt :
      (j : ℕ) (p : WorkerPool A) (i : ℕ) {p' : WorkerPool A}
      → take j p ≡ some p'
      → IsClosedAt p i
      → IsClosedAt p' i
  take-IsClosedAt j p i h c =
      let (e, rest, idle, full, after) = taken_cases j p h in
      elim (Bool-cases (nat_beq j i)) [
        | inl here ↦
            let at : IsClosedAt p j = rw ((nat_beq_iff j i).0 here) c in
            rw (after, here) (IsClosed-begin e rest (subst₂ IsClosed idle full at))
        | inr other ↦ rw (after, other) c
      ]

  finish-IsClosedAt :
      (j : ℕ) (a : A) (p : WorkerPool A) (i : ℕ) {p' : WorkerPool A}
      → finish j p ≡ some (a, p')
      → IsClosedAt p i
      → IsClosedAt p' i
  finish-IsClosedAt j a p i h c = elim (Bool-cases (nat_beq j i)) [
    | inl here ↦
        let at : IsClosedAt p j = rw ((nat_beq_iff j i).0 here) c in
        rw (finish-eq j a p h, here, sym ((nat_beq_iff j i).0 here))
          (subst (λ t. IsClosed t (p.queues j)) (finish-busy j a p h) at)
    | inr other ↦ rw (finish-eq j a p h, other) c
  ]

  Work-IsClosedAt : {p q : WorkerPool A} (i : ℕ) → Work p q → IsClosedAt p i → IsClosedAt q i
  Work-IsClosedAt i unmoved c = c
  Work-IsClosedAt i (took j {p'} w lt e) c = take-IsClosedAt j p' i e (Work-IsClosedAt i w c)
  Work-IsClosedAt i (ended j a {p'} w lt e) c = finish-IsClosedAt j a p' i e (Work-IsClosedAt i w c)

  all_exited_of :
      (n : ℕ) (p : WorkerPool A) → ((i : ℕ) → i < n → p.threads i ≡ exited) → all_exited n p ≡ true
  unfolding all_exited
  all_exited_of zero p h = refl
  all_exited_of (suc n) p h =
      all_exited-suc n p (h n (omega arith)) (all_exited_of n p (λ i lt. h i (omega arith)))

  rest-exited :
      (p : WorkerPool A) (i : ℕ) (t : Thread A) (q : List (Entry A))
      → p.threads i ≡ t
      → p.queues i ≡ q
      → t ≢ unstarted
      → IsClosed t q
      → take i p ≡ none
      → finish i p ≡ none
      → t ≡ exited
  unfolding take finish
  rest-exited p i unstarted q et eq s c no_take no_finish = absurd (s refl)
  rest-exited p i exited q et eq s c no_take no_finish = refl
  rest-exited p i (working a) q et eq s c no_take no_finish = absurd (ground arith)
  rest-exited p i waiting [] et eq s c no_take no_finish = absurd c
  rest-exited p i waiting (e ∷ q) et eq s c no_take no_finish = absurd (ground arith)

module _ {A : Type 0} (key_of : A → Key) where
  -- Whatever a thread does, a worker that is closed stays so.
  pub Step-IsClosedAt :
      {p p' : WorkerPool A} {ev : Event A} (i : ℕ)
      → Step key_of p ev p'
      → IsClosedAt p i
      → IsClosedAt p' i
  Step-IsClosedAt {p} i (submits a e) c = unfold submit in put-IsClosedAt _ (item a) p i e c
  Step-IsClosedAt {p} i (takes j lt e) c = take-IsClosedAt j p i e c
  Step-IsClosedAt {p} i (finishes j a success lt e) c = finish-IsClosedAt j a p i e c
  Step-IsClosedAt {p} i (closes j lt e) c = unfold close in put-IsClosedAt j sentinel p i e c

  -- Once a sentinel was put for each worker, every run of the workers ends with all of them returned:
  -- if no worker can step any more, `shutdown` finds that every thread has returned.
  pub at_rest_exited :
      {n size : ℕ} {p q : WorkerPool A} {all done : List A}
      → Reach key_of n size p all done
      → ((i : ℕ) → i < n → IsClosedAt p i)
      → Work p q
      → IsAtRest n q
      → all_exited n q ≡ true
  at_rest_exited {n} {p} {q} r closed w rest = all_exited_of n q (λ i lt.
      rest-exited q i (q.threads i) (q.queues i) refl refl
        (Work-IsRunning key_of w (Reach-IsRunning key_of r) i
          (omega (arith, lt, Work-workers w, (Reach-IsValid key_of r).workers)))
        (Work-IsClosedAt i w (closed i lt)) (rest i lt).0 (rest i lt).1)
