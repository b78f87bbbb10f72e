-- ===== src/Pool/Order.antt =====
-- What is submitted to a worker is finished, in hand or queued, in the order of submission.
use mathlib.Core.List.{append-nil, append_assoc}
use mathlib.Core.Path.{subst}
use event_pipeline_extension.Prelude.{
  ℕ, ◌≡◌, refl, sym, ◌∙◌, ap, true, some, List, [], ◌∷◌, ◌++◌, arith, All, All-append_right,
  keep-All, keep, keep-append, keep-keep, nat_beq, nat_beq_iff, if_same, if◌then◌else◌, ◌==◌,
  option_eq, list_eq, nat_eq, eq_law, Bool-cases, inl, inr,
}
use event_pipeline_extension.Pool.{
  Key, Entry, item, sentinel, Thread, waiting, working, unstarted, exited, WorkerPool, update,
  begin, take_from, route, put, submit, close, take, finish,
}
use event_pipeline_extension.Pool.Steps.{
  Event, Step, submits, takes, finishes, closes, submissions, completions,
}

module _ {A : Type 0} where
  abbrev pub items : List (Entry A) → List A
  items [] = []
  items (item a ∷ q) = a ∷ items q
  items (sentinel ∷ q) = items q

  pub items-append : (q r : List (Entry A)) → items (q ++ r) ≡ items q ++ items r
  items-append [] r = refl
  items-append (item a ∷ q) r = ap (◌∷◌ a) (items-append q r)
  items-append (sentinel ∷ q) r = items-append q r

  abbrev pub in_hand : Thread A → List A
  in_hand (working a) = a ∷ []
  in_hand _ = []

  -- The items of a worker that are not finished: the one in hand, then the queue.
  abbrev pub unfinished : WorkerPool A → ℕ → List A
  unfinished p i = in_hand (p.threads i) ++ items (p.queues i)

  pub put-eq-some :
      (j : ℕ) (e : Entry A) (p : WorkerPool A) {p' : WorkerPool A}
      → put j e p ≡ some p'
      → p' ≡ record p { queues = update p.queues j (p.queues j ++ e ∷ []) }
  unfolding put
  put-eq-some j e p h = ground arith

  -- A put adds to one worker's items, behind what is there, and changes no other.
  pub unfinished-put :
      (j : ℕ) (e : Entry A) (p : WorkerPool A) {p' : WorkerPool A} (i : ℕ)
      → put j e p ≡ some p'
      → unfinished p' i ≡ unfinished p i ++ (if nat_beq j i then items (e ∷ []) else [])
  unfinished-put j e p i h = elim (Bool-cases (nat_beq j i)) [
    | inl here ↦
        rw (put-eq-some j e p h, here, items-append, append_assoc, (nat_beq_iff j i).0 here)
    | inr other ↦ rw (put-eq-some j e p h, other, append-nil)
  ]

  pub take_cases :
      (j : ℕ) (p : WorkerPool A) {p' : WorkerPool A} (t : Thread A) (q : List (Entry A))
      → take_from j p t q ≡ some p'
      → (e : Entry A) × (rest : List (Entry A)) × (t ≡ waiting)
        × (q ≡ e ∷ rest)
        × (p'
            ≡ record p { queues = update p.queues j rest; threads = update p.threads j (begin e) })
  take_cases j p waiting (e ∷ rest) h = (e, rest, refl, refl, cc)
  take_cases j p waiting [] h = cc
  take_cases j p unstarted q h = cc
  take_cases j p exited q h = cc
  take_cases j p (working a) q h = cc

  in_hand-begin :
      (e : Entry A) (rest : List (Entry A)) → in_hand (begin e) ++ items rest ≡ items (e ∷ rest)
  in_hand-begin (item a) rest = refl
  in_hand-begin sentinel rest = refl

  -- A worker that takes an item has it in hand, where the queue had it first.
  pub unfinished-take :
      (j : ℕ) (p : WorkerPool A) {p' : WorkerPool A} (i : ℕ)
      → take j p ≡ some p'
      → unfinished p' i ≡ unfinished p i
  unfolding take
  unfinished-take j p i h =
      let (e, rest, idle, full, after) = take_cases j p (p.threads j) (p.queues j) h in
      elim (Bool-cases (nat_beq j i)) [
        | inl here ↦ rw (after, here, in_hand-begin e rest, ← (nat_beq_iff j i).0 here, idle, full)
        | inr other ↦ rw (after, other)
      ]

  pub unfinished-finish :
      (j : ℕ) (a : A) (p : WorkerPool A) {p' : WorkerPool A} (i : ℕ)
      → finish j p ≡ some (a, p')
      → unfinished p i ≡ (if nat_beq j i then a ∷ [] else []) ++ unfinished p' i
  unfolding finish
  unfinished-finish j a p i h = ground arith

module _ {A : Type 0} (key_of : A → Key) where
  -- The items of a list that are routed to a worker.
  abbrev pub for_worker : ℕ → ℕ → List A → List A
  for_worker n i l = keep (λ a. nat_beq (route n (key_of a)) i) l

  -- Of the submitted items each worker has finished a first part, and holds the rest in order.
  abbrev pub InOrder : WorkerPool A → List A → List A → Type 0
  InOrder p all done =
      (i : ℕ) → for_worker p.num_workers i all ≡ for_worker p.num_workers i done ++ unfinished p i

  -- The item in hand of a worker was routed to it.
  pub working-route :
      (p : WorkerPool A) (all done : List A)
      → InOrder p all done
      → (i : ℕ) (a : A) → p.threads i ≡ working a
      → nat_beq (route p.num_workers (key_of a)) i ≡ true
  working-route p all done h i a e =
      let mine : (b : A) → Type 0 = λ b. nat_beq (route p.num_workers (key_of b)) i ≡ true in
      (subst (λ t. All mine (in_hand t ++ items (p.queues i))) e
        (All-append_right mine (for_worker p.num_workers i done) (unfinished p i)
          (subst (All mine) (h i) (keep-All _ all)))).0

  -- What a step leaves alone.
  abbrev pub SameSize : WorkerPool A → WorkerPool A → Type 0
  SameSize p p' = (p'.num_workers ≡ p.num_workers) × (p'.queue_size ≡ p.queue_size)

  put-SameSize :
      (j : ℕ) (e : Entry A) (p : WorkerPool A) {p' : WorkerPool A}
      → put j e p ≡ some p'
      → SameSize p p'
  put-SameSize j e p h = rw (put-eq-some j e p h) (refl, refl)

  take-SameSize :
      (j : ℕ) (p : WorkerPool A) {p' : WorkerPool A} → take j p ≡ some p' → SameSize p p'
  unfolding take
  take-SameSize j p h = rw ((take_cases j p (p.threads j) (p.queues j) h).4) (refl, refl)

  finish-SameSize :
      (j : ℕ) (a : A) (p : WorkerPool A) {p' : WorkerPool A}
      → finish j p ≡ some (a, p')
      → SameSize p p'
  unfolding finish
  finish-SameSize j a p h = ground arith

  -- The number of workers and the bound of the queues are fixed.
  pub Step-SameSize : {p p' : WorkerPool A} {ev : Event A} → Step key_of p ev p' → SameSize p p'
  Step-SameSize {p} (submits a e) = unfold submit in put-SameSize _ _ p e
  Step-SameSize {p} (takes i lt e) = take-SameSize i p e
  Step-SameSize {p} (finishes i a success lt e) = finish-SameSize i a p e
  Step-SameSize {p} (closes i lt e) = unfold close in put-SameSize i sentinel p e

  -- An item of worker `j` goes into the list of worker `i` exactly if they are one.
  routed-once :
      (n i j : ℕ) (a : A)
      → nat_beq (route n (key_of a)) j ≡ true
      → (if nat_beq j i then a ∷ [] else []) ≡ for_worker n i (a ∷ [])
  routed-once n i j a mine = ground arith

  pub working-finish :
      (j : ℕ) (a : A) (p : WorkerPool A) {p' : WorkerPool A}
      → finish j p ≡ some (a, p')
      → p.threads j ≡ working a
  unfolding finish
  working-finish j a p h = ground arith

  -- Every step keeps the order.
  pub Step-InOrder :
      {p p' : WorkerPool A} {ev : Event A} (all done : List A)
      → Step key_of p ev p'
      → InOrder p all done
      → InOrder p' (all ++ submissions ev) (done ++ completions ev)
  Step-InOrder {p} all done (submits a e) h i =
      unfold submit in
      rw (
        (put-SameSize _ _ p e).0,
        unfinished-put _ _ p i e,
        keep-append,
        append-nil,
        h i,
        append_assoc,
      )
  Step-InOrder {p} all done (takes j lt e) h i =
      rw ((take-SameSize j p e).0, unfinished-take j p i e, append-nil, append-nil, h i)
  Step-InOrder {p} {p'} all done (finishes j a success lt e) h i =
      rw
        (
          (finish-SameSize j a p e).0,
          append-nil,
          keep-append,
          h i,
          unfinished-finish j a p i e,
          append_assoc,
        )
        (ap (λ l. for_worker p.num_workers i done ++ (l ++ unfinished p' i))
          (routed-once p.num_workers i j a
            (working-route p all done h j a (working-finish j a p e))))
  Step-InOrder {p} all done (closes j lt e) h i =
      unfold close in
      rw (
        (put-SameSize _ _ p e).0,
        unfinished-put _ _ p i e,
        append-nil,
        append-nil,
        h i,
        if_same,
        append-nil,
      )

  -- The items of a list with one key.
  abbrev pub of_key : Key → List A → List A
  of_key k l = keep (λ a. key_of a == k) l

  of_key-for_worker :
      (n : ℕ) (k : Key) (l : List A) → of_key k (for_worker n (route n k) l) ≡ of_key k l
  of_key-for_worker n k l =
      keep-keep (λ a. key_of a == k) (λ a. nat_beq (route n (key_of a)) (route n k)) l
        (λ a e. (nat_beq_iff _ _).1 (ap (route n) ((eq_law (key_of a) k).0 e)))

  pub InOrder-of_key :
      (p : WorkerPool A) (all done : List A)
      → InOrder p all done
      → (k : Key) → of_key k all ≡ of_key k done ++ of_key k (unfinished p (route p.num_workers k))
  InOrder-of_key p all done h k =
      sym (of_key-for_worker p.num_workers k all)
      ∙ ap (of_key k) (h (route p.num_workers k))
      ∙ keep-append (λ a. key_of a == k) (for_worker p.num_workers (route p.num_workers k) done) _
      ∙ ap (λ l. l ++ of_key k (unfinished p (route p.num_workers k)))
          (of_key-for_worker p.num_workers k done)
