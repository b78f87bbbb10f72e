-- ===== src/Pool/Measure.antt =====
-- The steps that the workers of a pool have before them.
use mathlib.Core.Path.{subst}
use event_pipeline_extension.Prelude.{
  ℕ, zero, suc, ◌+◌, ◌*◌, ◌<◌, ◌≤◌, ◌≡◌, refl, false, some, arith, length, nat_beq, nat_beq_iff,
  nat_beq_self, Bool-cases, inl, inr,
}
use event_pipeline_extension.Pool.{
  Entry, item, sentinel, Thread, waiting, working, unstarted, exited, WorkerPool, begin, take,
  finish,
}
use event_pipeline_extension.Pool.Order.{take_cases}
use event_pipeline_extension.Pool.Drain.{finish-eq}

module _ {A : Type 0} where
  abbrev in_work : Thread A → ℕ
  in_work (working a) = 1
  in_work _ = 0

  -- The steps that a worker has before it at most: two for each entry, and one for work in hand.
  abbrev ahead : WorkerPool A → ℕ → ℕ
  ahead p i = 2 * length (p.queues i) + in_work (p.threads i)

  -- Of the workers below `n`.
  pub total : ℕ → WorkerPool A → ℕ
  total zero p = 0
  total (suc n) p = total n p + ahead p n

  total-same :
      (n : ℕ) (p q : WorkerPool A)
      → ((j : ℕ) → j < n → ahead q j ≡ ahead p j)
      → total n q ≡ total n p
  unfolding total
  total-same zero p q same = refl
  total-same (suc n) p q same =
      omega (arith, same n (omega arith), total-same n p q (λ j lt. same j (omega arith)))

  -- One worker gets on by a step at least, the others stay.
  total-lt :
      (n i : ℕ) (p q : WorkerPool A)
      → i < n
      → ahead q i < ahead p i
      → ((j : ℕ) → nat_beq i j ≡ false → ahead q j ≡ ahead p j)
      → total n q < total n p
  unfolding total
  total-lt zero i p q lt less same = absurd (omega arith)
  total-lt (suc n) i p q lt less same = elim (Bool-cases (nat_beq i n)) [
    | inl last ↦
        let e : i ≡ n = (nat_beq_iff i n).0 last in
        let less' : ahead q n < ahead p n = subst (λ k. ahead q k < ahead p k) e less in
        omega (arith, less', total-same n p q (λ j below. same j (ground (arith, e))))
    | inr before ↦ omega (arith, same n before, total-lt n i p q (ground arith) less same)
  ]

  in_work-begin : (e : Entry A) → in_work (begin e) ≤ 1
  in_work-begin (item a) = omega arith
  in_work-begin sentinel = omega arith

  pub finish-busy :
      (i : ℕ) (a : A) (p : WorkerPool A) {q : WorkerPool A}
      → finish i p ≡ some (a, q)
      → p.threads i ≡ working a
  unfolding finish
  finish-busy i a p h = ground arith

  pub take-ahead :
      (n i : ℕ) (p : WorkerPool A) {q : WorkerPool A}
      → i < n
      → take i p ≡ some q
      → total n q < total n p
  unfolding take
  take-ahead n i p {q} lt h =
      let (e, rest, idle, full, after) = take_cases i p (p.threads i) (p.queues i) h in
      total-lt n i p q lt (rw (after, nat_beq_self i, full, idle) (omega (arith, in_work-begin e)))
        (λ j other. rw (after, other) refl)

  pub finish-ahead :
      (n i : ℕ) (a : A) (p : WorkerPool A) {q : WorkerPool A}
      → i < n
      → finish i p ≡ some (a, q)
      → total n q < total n p
  finish-ahead n i a p {q} lt h =
      total-lt n i p q lt
        (rw (finish-eq i a p h, nat_beq_self i, finish-busy i a p h) (omega arith))
        (λ j other. rw (finish-eq i a p h, other) refl)

  in_work-le : (t : Thread A) → in_work t ≤ 1
  in_work-le (working a) = omega arith
  in_work-le waiting = omega arith
  in_work-le unstarted = omega arith
  in_work-le exited = omega arith

  pub total-le :
      (n size : ℕ) (p : WorkerPool A)
      → ((i : ℕ) → length (p.queues i) ≤ size)
      → total n p ≤ n * (2 * size + 1)
  unfolding total
  total-le zero size p h = omega arith
  total-le (suc n) size p h = grind (arith, total-le n size p h, h n, in_work-le (p.threads n))
