-- ===== src/Pool/Settles.antt =====
-- Left alone, the workers come to a state in which none can step.
use event_pipeline_extension.Prelude.{
  ℕ, zero, suc, ◌<◌, ◌≤◌, ◌≡◌, ◌⊎◌, refl, Option, none, some, arith, nat_beq, nat_beq_iff,
  Bool-cases, inl, inr,
}
use event_pipeline_extension.Pool.{WorkerPool, take, finish}
use event_pipeline_extension.Pool.Blocked.{Work, unmoved, took, ended}
use event_pipeline_extension.Pool.Measure.{total, take-ahead, finish-ahead}
use event_pipeline_extension.Pool.Termination.{IsAtRest, Work-workers}

module _ {A : Type 0} where
  -- A run that is longer by a step.
  record Moved (n : ℕ) (p₀ p : WorkerPool A) : Type 0 where
    last : WorkerPool A
    work : Work p₀ last
    less : total n last < total n p

  move_one :
      (n i : ℕ) (p₀ p : WorkerPool A) (t : Option (WorkerPool A)) (f : Option (A × WorkerPool A))
      → Work p₀ p
      → i < n
      → i < p.num_workers
      → take i p ≡ t
      → finish i p ≡ f
      → Moved n p₀ p ⊎ (t ≡ none) × (f ≡ none)
  move_one n i p₀ p (some q) f w below lt et ef =
      inl (record { last = q; work = took i w lt et; less = take-ahead n i p below et })
  move_one n i p₀ p none (some (a, q)) w below lt et ef =
      inl (record { last = q; work = ended i a w lt ef; less = finish-ahead n i a p below ef })
  move_one n i p₀ p none none w below lt et ef = inr (refl, refl)

  move :
      (n k : ℕ) (p₀ p : WorkerPool A)
      → Work p₀ p
      → p.num_workers ≡ n
      → k ≤ n
      → Moved n p₀ p ⊎ IsAtRest k p
  move n zero p₀ p w count le = inr (λ i lt. absurd (omega arith))
  move n (suc k) p₀ p w count le = elim (move n k p₀ p w count (omega arith)) [
    | inl m ↦ inl m
    | inr below ↦
        elim (move_one n k p₀ p (take k p) (finish k p) w (omega arith) (omega (arith, count)) refl
          refl) [
            | inl m ↦ inl m
            | inr stuck ↦ inr (λ i lt. elim (Bool-cases (nat_beq i k)) [
              | inl same ↦ rw ((nat_beq_iff i k).0 same) stuck
              | inr other ↦ below i (ground arith)
            ])
          ]
  ]

  settle :
      (fuel n : ℕ) (p₀ p : WorkerPool A)
      → Work p₀ p
      → p₀.num_workers ≡ n
      → total n p ≤ fuel
      → (q : WorkerPool A) × Work p₀ q × IsAtRest n q
  settle zero n p₀ p w count le =
      elim (move n n p₀ p w (omega (arith, count, Work-workers w)) (omega arith)) [
        | inl m ↦ absurd (omega (arith, m.less))
        | inr rest ↦ (p, w, rest)
      ]
  settle (suc fuel) n p₀ p w count le =
      elim (move n n p₀ p w (omega (arith, count, Work-workers w)) (omega arith)) [
        | inl m ↦ settle fuel n p₀ m.last m.work count (omega (arith, m.less))
        | inr rest ↦ (p, w, rest)
      ]

  -- From every state of a pool, whatever it is, some run of the workers alone ends where none of them
  -- can step.
  pub rest_reached : (p : WorkerPool A) → (q : WorkerPool A) × Work p q × IsAtRest p.num_workers q
  rest_reached p = settle (total p.num_workers p) p.num_workers p p unmoved refl (omega arith)
