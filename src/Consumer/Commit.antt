-- ===== src/Consumer/Commit.antt =====
-- `_commit`: what is requested of the broker, and what is noted.
use mathlib.Core.Path.{subst}
use event_pipeline_extension.Prelude.{
  ℕ, ◌≡◌, refl, sym, Bool, true, false, Option, none, some, List, [], ◌∷◌, arith, eq_law, nat_eq,
  string_eq, pair_eq, All, if◌then◌else◌, Bool-cases, inl, inr,
}
use event_pipeline_extension.Dict.{Dict, get, put}
use event_pipeline_extension.Dict.Laws.{IsUnique, get-put, get-put_self, map_values-IsUnique}
use event_pipeline_extension.Json.{ℤ}
use event_pipeline_extension.Watermark.{snapshot}
use event_pipeline_extension.Consumer.{
  TopicPartition, Consumer, before, ℤ_beq_iff, is_noted, collect, commit, request_of, exit_after,
}

abbrev Offsets : Type 0
Offsets = List (TopicPartition × ℕ)

-- Noting the items leaves the partitions that are not among them alone.
collect-other :
    (tp : TopicPartition) (items : Offsets) (last : Dict TopicPartition ℤ)
    → get tp items ≡ none
    → get tp (collect items last).1 ≡ get tp last
unfolding collect get
collect-other tp [] last h = refl
collect-other tp ((j, n) ∷ items) last h =
    let skip = is_noted (get j last) n in
    let next = if skip then last else put j (before n) last in
    ground (arith, get-put j tp (before n) last, eq_law j tp, collect-other tp items next)

-- The item is noted as committed.
abbrev pub IsNoted : Dict TopicPartition ℤ → TopicPartition × ℕ → Type 0
IsNoted last (tp, n) = is_noted (get tp last) n ≡ true

is_noted-before : (n : ℕ) → is_noted (some (before n)) n ≡ true
is_noted-before n = (ℤ_beq_iff (before n) (before n)).1 refl

module _ (tp : TopicPartition) (n : ℕ) (items : Offsets) (last : Dict TopicPartition ℤ) where
  pub collect_skip :
      is_noted (get tp last) n ≡ true → collect ((tp, n) ∷ items) last ≡ collect items last
  unfolding collect
  collect_skip h = rw h

  pub collect_send :
      is_noted (get tp last) n ≡ false
      → collect ((tp, n) ∷ items) last ≡ (
        (tp, n) ∷ (collect items (put tp (before n) last)).0,
        (collect items (put tp (before n) last)).1,
      )
  unfolding collect
  collect_send h = rw h

pub collect-IsNoted :
    (items : Offsets) (last : Dict TopicPartition ℤ)
    → IsUnique items
    → All (IsNoted (collect items last).1) items
collect-IsNoted [] last u = tt
collect-IsNoted ((tp, n) ∷ items) last u = elim (Bool-cases (is_noted (get tp last) n)) [
  | inl skip ↦
      subst (λ r. All (IsNoted r.1) ((tp, n) ∷ items)) (sym (collect_skip tp n items last skip))
        (rw (collect-other tp items last u.0) skip, collect-IsNoted items last u.1)
  | inr send ↦
      subst (λ r. All (IsNoted r.1) ((tp, n) ∷ items)) (sym (collect_send tp n items last send))
        (
          rw (collect-other tp items (put tp (before n) last) u.0, get-put_self)
              (is_noted-before n),
          collect-IsNoted items (put tp (before n) last) u.1,
        )
]

collect_noted :
    (items : Offsets) (last : Dict TopicPartition ℤ)
    → All (IsNoted last) items
    → collect items last ≡ ([], last)
unfolding collect
collect_noted [] last h = refl
collect_noted ((tp, n) ∷ items) last h = ground (arith, collect_noted items last h.1)

-- Every offset that is requested is that of the item of its partition.
collect_sound :
    (items : Offsets) (last : Dict TopicPartition ℤ) (P : TopicPartition × ℕ → Type 0)
    → All P items
    → All P (collect items last).0
collect_sound [] last P h = unfold collect in tt
collect_sound ((tp, n) ∷ items) last P h = elim (Bool-cases (is_noted (get tp last) n)) [
  | inl skip ↦ rw (collect_skip tp n items last skip) (collect_sound items last P h.1)
  | inr send ↦ rw (collect_send tp n items last send) (h.0, collect_sound items _ P h.1)
]

-- The offsets of a request, `[]` if there is none.
abbrev pub offsets_of : Option Offsets → Offsets
offsets_of none = []
offsets_of (some offsets) = offsets

pub offsets_of-request_of : (offsets : Offsets) → offsets_of (request_of offsets) ≡ offsets
offsets_of-request_of [] = refl
offsets_of-request_of (o ∷ offsets) = refl

pub commit_sound :
    (asynchronous accepted : Bool) (c : Consumer) (P : TopicPartition × ℕ → Type 0)
    → All P (snapshot c.watermark)
    → All P (offsets_of (commit asynchronous accepted c).1)
unfolding commit
commit_sound asynchronous accepted c P h =
    rw offsets_of-request_of (collect_sound (snapshot c.watermark) c.last_committed P h)

exit_after-true :
    (accepted : Bool) (request : Option Offsets) (n : ℕ) → exit_after true accepted request n ≡ n
exit_after-true accepted none n = refl
exit_after-true true (some o) n = refl
exit_after-true false (some o) n = refl

-- An asynchronous commit leaves the exit code.
pub exit_code-commit_asynchronous :
    (accepted : Bool) (c : Consumer) → (commit true accepted c).0.exit_code ≡ c.exit_code
unfolding commit
exit_code-commit_asynchronous accepted c = exit_after-true accepted _ c.exit_code

-- So does any commit that requests nothing.
pub exit_code-commit-none :
    (asynchronous accepted : Bool) (c : Consumer)
    → (commit asynchronous accepted c).1 ≡ none
    → (commit asynchronous accepted c).0.exit_code ≡ c.exit_code
unfolding commit
exit_code-commit-none asynchronous accepted c h = rw h

-- Whatever the broker answered, a second commit of an unchanged watermark requests nothing: offsets
-- whose commit failed are not requested again, not by the synchronous commit at the end either.
pub commit_again :
    (asynchronous accepted asynchronous' accepted' : Bool) (c : Consumer)
    → IsUnique c.watermark
    → (commit asynchronous' accepted' (commit asynchronous accepted c).0).1 ≡ none
unfolding commit snapshot
commit_again asynchronous accepted asynchronous' accepted' c u =
    let items = snapshot c.watermark in
    rw (
      collect_noted items (collect items c.last_committed).1 (
        collect-IsNoted items c.last_committed
          (map_values-IsUnique (λ s. s.next_to_commit) c.watermark u)))
