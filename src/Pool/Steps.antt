-- ===== src/Pool/Steps.antt =====
-- The interleavings of the threads that use a pool: each event is one call on a queue or the end of
-- one item's work.
use event_pipeline_extension.Prelude.{ℕ, ◌<◌, ◌≡◌, Bool, some, List, [], ◌∷◌}
use event_pipeline_extension.Pool.{Key, WorkerPool, submit, close, take, finish}

pub data Event (A : Type 0) : Type 0 where
  submitted : A → Event A
  took closed : ℕ → Event A
  finished : A → Bool → Event A

module _ {A : Type 0} (key_of : A → Key) where
  -- Any thread may be the next to step. `finished a ok` says how the work of `a` ended.
  pub data Step (p : WorkerPool A) : Event A → WorkerPool A → Type 0 where
    submits :
        (a : A) {p' : WorkerPool A} → submit (key_of a) a p ≡ some p' → Step p (submitted a) p'
    takes :
        (i : ℕ) {p' : WorkerPool A} → i < p.num_workers → take i p ≡ some p' → Step p (took i) p'
    finishes :
        (i : ℕ) (a : A) (success : Bool) {p' : WorkerPool A}
        → i < p.num_workers
        → finish i p ≡ some (a, p')
        → Step p (finished a success) p'
    closes :
        (i : ℕ) {p' : WorkerPool A} → i < p.num_workers → close i p ≡ some p' → Step p (closed i) p'

module _ {A : Type 0} where
  abbrev pub submissions : Event A → List A
  submissions (submitted a) = a ∷ []
  submissions _ = []

  abbrev pub completions : Event A → List A
  completions (finished a _) = a ∷ []
  completions _ = []
