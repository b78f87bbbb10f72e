-- ===== src/Pool/Bounds.antt =====
-- Routing stays in range, and no queue passes its bound.
use event_pipeline_extension.Prelude.{
  ℕ, ◌+◌, ◌≤◌, ◌<◌, ◌≡◌, none, some, List, [], ◌∷◌, arith, length, length-append, nat_beq_iff,
}
use event_pipeline_extension.Pool.{
  Key, Entry, item, sentinel, Thread, waiting, working, unstarted, exited, WorkerPool, take_from,
  route, put, submit, close, take, finish,
}
use event_pipeline_extension.Pool.Steps.{Event, Step, submits, takes, finishes, closes}
use event_pipeline_extension.Pool.Order.{items, in_hand, unfinished}

-- Every key, absent or empty ones included, goes to a worker that exists.
pub route-lt : (n : ℕ) (k : Key) → 0 < n → route n k < n
unfolding route
route-lt n none h = h
route-lt n (some []) h = h
route-lt n (some (b ∷ bs)) h = grind arith

module _ {A : Type 0} where
  -- No queue holds more than the bound.
  abbrev pub IsBounded : WorkerPool A → Type 0
  IsBounded p = (i : ℕ) → length (p.queues i) ≤ p.queue_size

  put-IsBounded :
      (j : ℕ) (e : Entry A) (p : WorkerPool A) {p' : WorkerPool A}
      → put j e p ≡ some p'
      → IsBounded p
      → IsBounded p'
  unfolding put
  put-IsBounded j e p h b i =
      ground (arith, b i, b j, nat_beq_iff j i, length-append (p.queues j) (e ∷ []))

  take_from-IsBounded :
      (j : ℕ) (p : WorkerPool A) {p' : WorkerPool A} (t : Thread A) (q : List (Entry A))
      → length q ≤ p.queue_size
      → take_from j p t q ≡ some p'
      → IsBounded p
      → IsBounded p'
  take_from-IsBounded j p waiting (e ∷ rest) l h b i = ground (arith, b i)
  take_from-IsBounded j p waiting [] l h b i = cc
  take_from-IsBounded j p unstarted q l h b i = cc
  take_from-IsBounded j p exited q l h b i = cc
  take_from-IsBounded j p (working a) q l h b i = cc

  finish-IsBounded :
      (j : ℕ) (a : A) (p : WorkerPool A) {p' : WorkerPool A}
      → finish j p ≡ some (a, p')
      → IsBounded p
      → IsBounded p'
  unfolding finish
  finish-IsBounded j a p h b i = ground (arith, b i)

  length-items-le : (q : List (Entry A)) → length (items q) ≤ length q
  length-items-le [] = omega arith
  length-items-le (item a ∷ q) = omega (arith, length-items-le q)
  length-items-le (sentinel ∷ q) = omega (arith, length-items-le q)

  -- A worker holds at most one item more than its queue.
  pub length-unfinished-le :
      (p : WorkerPool A) → IsBounded p → (i : ℕ) → length (unfinished p i) ≤ p.queue_size + 1
  length-unfinished-le p b i = ground (
    arith,
    b i,
    length-items-le (p.queues i),
    length-append (in_hand (p.threads i)) (items (p.queues i)),
  )

module _ {A : Type 0} (key_of : A → Key) where
  pub Step-IsBounded :
      {p p' : WorkerPool A} {ev : Event A} → Step key_of p ev p' → IsBounded p → IsBounded p'
  Step-IsBounded {p} (submits a e) = unfold submit in put-IsBounded _ _ p e
  Step-IsBounded {p} (takes i lt e) = λ b. unfold take in take_from-IsBounded i p _ _ (b i) e b
  Step-IsBounded {p} (finishes i a success lt e) = finish-IsBounded i a p e
  Step-IsBounded {p} (closes i lt e) = unfold close in put-IsBounded i sentinel p e
