-- ===== src/Consumer/Requested.antt =====
-- `_commit`: what it notes as committed is what it requests of the broker, or was noted before.
use mathlib.Core.Path.{subst}
use event_pipeline_extension.Prelude.{
  ℕ, zero, suc, ◌==◌, ◌∙◌, ◌≡◌, ◌⊎◌, refl, true, false, some, inl, inr, List, [], ◌∷◌, arith, IsIn,
  eq_law, nat_eq, string_eq, pair_eq, Bool-cases,
}
use event_pipeline_extension.Dict.{Dict, get, put, map_values}
use event_pipeline_extension.Dict.Laws.{get-put, IsUnique, map_values-IsUnique}
use event_pipeline_extension.Json.{ℤ}
use event_pipeline_extension.Watermark.{OffsetWatermark, next_to_commit, snapshot}
use event_pipeline_extension.Consumer.{TopicPartition, before, ℤ_beq_iff, is_noted, collect}
use event_pipeline_extension.Consumer.Commit.{collect_skip, collect_send}

before_injective : (m n : ℕ) → before m ≡ before n → m ≡ n
before_injective zero zero h = refl
before_injective zero (suc n) h = cc
before_injective (suc m) zero h = cc
before_injective (suc m) (suc n) h = ground arith

module _ (tp j : TopicPartition) (z : ℤ) (last : Dict TopicPartition ℤ) where
  get-put_here : (j == tp) ≡ true → get tp (put j z last) ≡ some z
  get-put_here h = get-put j tp z last ∙ rw h refl

  get-put_there : (j == tp) ≡ false → get tp (put j z last) ≡ get tp last
  get-put_there h = get-put j tp z last ∙ rw h refl

-- Noting an item makes that item noted, and no other.
is_noted-put :
    (tp j : TopicPartition) (n m : ℕ) (last : Dict TopicPartition ℤ)
    → is_noted (get tp (put j (before m) last)) n ≡ true
    → (is_noted (get tp last) n ≡ true) ⊎ (◌≡◌ {A = TopicPartition × ℕ} (tp, n) (j, m))
is_noted-put tp j n m last h = elim (Bool-cases (j == tp)) [
  | inl same ↦
      let at_j : is_noted (some (before m)) n ≡ true =
        subst (λ g. is_noted g n ≡ true) (get-put_here tp j (before m) last same) h in
      let equal : m ≡ n = before_injective m n ((ℤ_beq_iff (before m) (before n)).0 at_j) in
      let key : j ≡ tp = (eq_law j tp).0 same in
      let pairs : ◌≡◌ {A = TopicPartition × ℕ} (tp, n) (j, m) = cc in inr pairs
  | inr other ↦ inl (subst (λ g. is_noted g n ≡ true) (get-put_there tp j (before m) last other) h)
]

-- What is noted after the loop was noted before it or is requested.
pub collect_requested :
    (items : List (TopicPartition × ℕ)) (last : Dict TopicPartition ℤ) (tp : TopicPartition) (n : ℕ)
    → is_noted (get tp (collect items last).1) n ≡ true
    → (is_noted (get tp last) n ≡ true) ⊎ IsIn (tp, n) (collect items last).0
collect_requested [] last tp n h = unfold collect in inl h
collect_requested ((j, m) ∷ items) last tp n h = elim (Bool-cases (is_noted (get j last) m)) [
  | inl skip ↦
      let e = collect_skip j m items last skip in
      rw e (collect_requested items last tp n (subst (λ r. is_noted (get tp r.1) n ≡ true) e h))
  | inr send ↦
      let e = collect_send j m items last send in
      rw e
        (elim (collect_requested items (put j (before m) last) tp n
          (subst (λ r. is_noted (get tp r.1) n ≡ true) e h)) [
            | inl noted ↦ elim (is_noted-put tp j n m last noted) [
              | inl old ↦ inl old
              | inr same ↦ inr (inl same)
            ]
            | inr asked ↦ inr (inr asked)
          ])
]

-- The offset to commit of a partition is an item of the snapshot.
pub next_to_commit-IsIn :
    (tp : TopicPartition) (o : ℕ) (w : OffsetWatermark TopicPartition)
    → next_to_commit tp w ≡ some o
    → IsIn (tp, o) (snapshot w)
unfolding next_to_commit snapshot get map_values
next_to_commit-IsIn tp o [] h = cc
next_to_commit-IsIn tp o ((j, s) ∷ w) h = ground (arith, eq_law j tp, next_to_commit-IsIn tp o w)

pub snapshot-IsUnique : (w : OffsetWatermark TopicPartition) → IsUnique w → IsUnique (snapshot w)
unfolding snapshot
snapshot-IsUnique w u = map_values-IsUnique (λ s. s.next_to_commit) w u
