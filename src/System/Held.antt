-- ===== src/System/Held.antt =====
-- What holds of every message in the pool, if it holds of every message that is submitted.
use mathlib.Core.Path.{subst}
use event_pipeline_extension.Prelude.{
  sym, Bool, nat_beq_self, ℕ, ◌≡◌, true, false, some, List, [], ◌∷◌, ◌++◌, arith, All, All-append,
  All-append_right, nat_beq, if◌then◌else◌,
}
use event_pipeline_extension.Prelude.Result.{ok}
use event_pipeline_extension.Pool.{
  Key, WorkerPool, Entry, item, sentinel, init, start, submit, take, finish, close, put,
}
use event_pipeline_extension.Pool.Order.{
  unfinished, items, unfinished-put, unfinished-take, unfinished-finish,
}

unfinished-start :
    {A : Type 0} (n size i : ℕ) {p₀ p : WorkerPool A}
    → init n size ≡ ok p₀
    → start p₀ ≡ ok p
    → unfinished p i ≡ []
unfolding init start
unfinished-start n size i a b = ground arith

module _ {A : Type 0} (P : A → Type 0) where
  abbrev pub Holds : WorkerPool A → Type 0
  Holds p = (i : ℕ) → All P (unfinished p i)

  All-if : (b : Bool) (xs : List A) → All P xs → All P (if b then xs else [])
  All-if true xs h = h
  All-if false xs h = tt

  put-Holds :
      (j : ℕ) (e : Entry A) (p : WorkerPool A) {p' : WorkerPool A}
      → put j e p ≡ some p'
      → All P (items (e ∷ []))
      → Holds p
      → Holds p'
  put-Holds j e p h new old i =
      subst (All P) (sym (unfinished-put j e p i h))
        (All-append P _ _ (old i) (All-if (nat_beq j i) (items (e ∷ [])) new))

  pub submit-Holds :
      (k : Key) (a : A) (p : WorkerPool A) {p' : WorkerPool A}
      → submit k a p ≡ some p'
      → P a
      → Holds p
      → Holds p'
  submit-Holds k a p h new old = unfold submit in put-Holds _ (item a) p h (new, tt) old

  pub close-Holds :
      (j : ℕ) (p : WorkerPool A) {p' : WorkerPool A} → close j p ≡ some p' → Holds p → Holds p'
  close-Holds j p h old = unfold close in put-Holds j sentinel p h tt old

  pub take-Holds :
      (j : ℕ) (p : WorkerPool A) {p' : WorkerPool A} → take j p ≡ some p' → Holds p → Holds p'
  take-Holds j p h old i = subst (All P) (sym (unfinished-take j p i h)) (old i)

  finish-split :
      (j : ℕ) (a : A) (p : WorkerPool A) {p' : WorkerPool A} (i : ℕ)
      → finish j p ≡ some (a, p')
      → Holds p
      → All P ((if nat_beq j i then a ∷ [] else []) ++ unfinished p' i)
  finish-split j a p i h old = subst (All P) (unfinished-finish j a p i h) (old i)

  pub finish-Holds :
      (j : ℕ) (a : A) (p : WorkerPool A) {p' : WorkerPool A}
      → finish j p ≡ some (a, p')
      → Holds p
      → P a × Holds p'
  finish-Holds j a p {p'} h old = (
    (subst (λ b. All P ((if b then a ∷ [] else []) ++ unfinished p' j)) (nat_beq_self j)
        (finish-split j a p j h old)).0,
    λ i.
        All-append_right P (if nat_beq j i then a ∷ [] else []) (unfinished p' i)
          (finish-split j a p i h old),
  )

  -- A pool that has just been started holds nothing.
  pub start-Holds :
      (n size : ℕ) {p₀ p : WorkerPool A} → init n size ≡ ok p₀ → start p₀ ≡ ok p → Holds p
  start-Holds n size a b i = subst (All P) (sym (unfinished-start n size i a b)) tt
