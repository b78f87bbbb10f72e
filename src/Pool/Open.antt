-- ===== src/Pool/Open.antt =====
-- A pool that is not being shut down stays so until a sentinel is put.
use mathlib.Core.Path.{subst}
use event_pipeline_extension.Prelude.{
  ℕ, ◌≡◌, ◌≢◌, sym, some, List, [], ◌∷◌, ◌++◌, arith, nat_beq, nat_beq_iff, Bool-cases, inl, inr,
}
use event_pipeline_extension.Pool.{
  Key, Entry, item, sentinel, exited, WorkerPool, put, submit, take, finish, start, init, begin,
}
use event_pipeline_extension.Prelude.Result.{ok}
use event_pipeline_extension.Pool.Order.{put-eq-some, take_cases}
use event_pipeline_extension.Pool.Drain.{IsOpen, IsPlain, finish-eq}

module _ {A : Type 0} where
  IsPlain-item : (q : List (Entry A)) (a : A) → IsPlain q → IsPlain (q ++ item a ∷ [])
  IsPlain-item [] a h = tt
  IsPlain-item (item b ∷ q) a h = IsPlain-item q a h
  IsPlain-item (sentinel ∷ q) a h = absurd h

  queues-start :
      (n size i : ℕ) {p₀ p : WorkerPool A} → init n size ≡ ok p₀ → start p₀ ≡ ok p → p.queues i ≡ []
  unfolding init start
  queues-start n size i a b = ground arith

  pub start-IsOpen :
      (n size : ℕ) {p₀ p : WorkerPool A} → init n size ≡ ok p₀ → start p₀ ≡ ok p → IsOpen p
  unfolding init start
  start-IsOpen n size a b = record {
    plain = λ i. subst IsPlain (sym (queues-start n size i a b)) tt;
    running = λ i e. ground arith;
  }

  put-IsOpen :
      (j : ℕ) (a : A) (p : WorkerPool A) {p' : WorkerPool A}
      → put j (item a) p ≡ some p'
      → IsOpen p
      → IsOpen p'
  put-IsOpen j a p h o = record {
    plain = λ i. elim (Bool-cases (nat_beq j i)) [
      | inl here ↦
          rw (put-eq-some j (item a) p h, here, (nat_beq_iff j i).0 here)
            (IsPlain-item (p.queues i) a (o.plain i))
      | inr other ↦ rw (put-eq-some j (item a) p h, other) (o.plain i)
    ];
    running = λ i e. o.running i (rw (put-eq-some j (item a) p h) at e);
  }

  pub submit-IsOpen :
      (k : Key) (a : A) (p : WorkerPool A) {p' : WorkerPool A}
      → submit k a p ≡ some p'
      → IsOpen p
      → IsOpen p'
  submit-IsOpen k a p h o = unfold submit in put-IsOpen _ a p h o

  begin-IsOpen :
      (e : Entry A) (rest : List (Entry A)) → IsPlain (e ∷ rest) → IsPlain rest × (begin e ≢ exited)
  begin-IsOpen (item a) rest h = (h, λ e. cc)
  begin-IsOpen sentinel rest h = absurd h

  pub take-IsOpen :
      (j : ℕ) (p : WorkerPool A) {p' : WorkerPool A} → take j p ≡ some p' → IsOpen p → IsOpen p'
  unfolding take
  take-IsOpen j p h o =
      let (e, rest, idle, full, after) = take_cases j p (p.threads j) (p.queues j) h in
      let v = begin-IsOpen e rest (subst IsPlain full (o.plain j)) in
      record {
        plain = λ i. elim (Bool-cases (nat_beq j i)) [
          | inl here ↦ rw (after, here) v.0
          | inr other ↦ rw (after, other) (o.plain i)
        ];
        running = λ i. elim (Bool-cases (nat_beq j i)) [
          | inl here ↦ rw (after, here) v.1
          | inr other ↦ rw (after, other) (o.running i)
        ];
      }

  pub finish-IsOpen :
      (j : ℕ) (a : A) (p : WorkerPool A) {p' : WorkerPool A}
      → finish j p ≡ some (a, p')
      → IsOpen p
      → IsOpen p'
  finish-IsOpen j a p h o = record {
    plain = λ i. rw (finish-eq j a p h) (o.plain i);
    running = λ i. elim (Bool-cases (nat_beq j i)) [
      | inl here ↦ rw (finish-eq j a p h, here) (λ e. cc)
      | inr other ↦ rw (finish-eq j a p h, other) (o.running i)
    ];
  }
