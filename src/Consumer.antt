-- ===== src/Consumer.antt =====
-- event_processor/consumer.py: the state of `KafkaConsumerLoop` and the parts of its loop.
pub mod Commit
pub mod Requested
use event_pipeline_extension.Prelude.{
  ℕ, zero, suc, String, Bool, true, false, not, Option, none, some, List, [], ◌∷◌, Eq, ◌==◌, nat_eq,
  string_eq, pair_eq, if◌then◌else◌, nat_beq, nat_beq_iff, ◌≡◌, ◌↔◌, arith,
}
use event_pipeline_extension.Prelude.Result.{Result, ok, raise, ◌>>=◌}
use event_pipeline_extension.Dict.{Dict, get, put}
use event_pipeline_extension.Errors.{Exception}
use event_pipeline_extension.Json.{ℤ, pos, negsuc}
use event_pipeline_extension.EventId.{Codec, peek_event_id}
use event_pipeline_extension.Pool.{Key}
use event_pipeline_extension.Store.{EventStore, mark_pending}
use event_pipeline_extension.Watermark
use event_pipeline_extension.Watermark.{OffsetWatermark, observe, complete, snapshot}

-- (topic, partition)
abbrev pub TopicPartition : Type 0
TopicPartition = String × ℕ

-- What the loop reads of a Kafka message that is no error.
pub record Message : Type 0 where
  pub tp : TopicPartition
  pub offset : ℕ
  pub key : Key
  pub value : Option (List ℕ)

-- An entry of the queue of completions: the partition, the offset, and whether the work returned.
pub record Completion : Type 0 where
  pub tp : TopicPartition
  pub offset : ℕ
  pub success : Bool

pub record Consumer : Type 0 where
  pub watermark : OffsetWatermark TopicPartition
  pub last_committed : Dict TopicPartition ℤ
  pub exit_code : ℕ

abbrev pub init : Consumer
init = record { watermark = Watermark.init; last_committed = []; exit_code = 0 }

-- `next_offset - 1`
abbrev pub before : ℕ → ℤ
before zero = negsuc 0
before (suc n) = pos n

abbrev pub ℤ_beq : ℤ → ℤ → Bool
ℤ_beq (pos m) (pos n) = nat_beq m n
ℤ_beq (negsuc m) (negsuc n) = nat_beq m n
ℤ_beq _ _ = false

pub ℤ_beq_iff : (a b : ℤ) → (ℤ_beq a b ≡ true) ↔ (a ≡ b)
ℤ_beq_iff (pos m) (pos n) = ground arith
ℤ_beq_iff (pos m) (negsuc n) = ground arith
ℤ_beq_iff (negsuc m) (pos n) = ground arith
ℤ_beq_iff (negsuc m) (negsuc n) = ground arith

-- `self._on_first_seen(event_id)`, which main.py wires to the store's `mark_pending`.
abbrev pub first_seen : Option String → EventStore → EventStore
first_seen none s = s
first_seen (some event_id) s = mark_pending event_id s

-- `_dispatch` up to the call of `submit`: the message is submitted as it is, since its work and its
-- `on_done` close over its value, its partition and its offset.
unfoldable pub dispatch :
    Codec → Message → EventStore → Consumer → Result Exception (EventStore × Consumer)
dispatch codec m s c = do
  event_id ← peek_event_id codec m.value
  ok (first_seen event_id s, record c { watermark = observe m.tp m.offset c.watermark })

-- What `on_done` puts into the queue of completions.
abbrev pub completion_of : Message → Bool → Completion
completion_of m success = record { tp = m.tp; offset = m.offset; success = success }

-- One round of `_drain_completions`: a failed message does not advance the watermark.
unfoldable pub drain_one : Completion → Consumer → Consumer
drain_one done c =
    if done.success then record c { watermark = complete done.tp done.offset c.watermark } else c

-- The loop, until the queue is empty.
unfoldable pub drain_completions : List Completion → Consumer → Consumer
unfolding drain_one
drain_completions [] c = c
drain_completions (done ∷ rest) c = drain_completions rest (drain_one done c)

-- The test of `_commit` on `self._last_committed.get(tp)`.
abbrev pub is_noted : Option ℤ → ℕ → Bool
is_noted none next = false
is_noted (some noted) next = ℤ_beq noted (before next)

-- The loop of `_commit` over the items of the snapshot: the offsets to commit, and what is then
-- noted as committed.
unfoldable pub collect :
    List (TopicPartition × ℕ)
    → Dict TopicPartition ℤ
    → List (TopicPartition × ℕ) × Dict TopicPartition ℤ
collect [] last = ([], last)
collect ((tp, next) ∷ items) last =
    let skip = is_noted (get tp last) next in
    let (offsets, last') = collect items (if skip then last else put tp (before next) last) in
    (if skip then offsets else (tp, next) ∷ offsets, last')

-- The request that `_commit` makes of the broker, if any.
abbrev pub request_of : List (TopicPartition × ℕ) → Option (List (TopicPartition × ℕ))
request_of [] = none
request_of (o ∷ offsets) = some (o ∷ offsets)

-- A request that fails is an error only where it was synchronous.
abbrev pub exit_after : Bool → Bool → Option (List (TopicPartition × ℕ)) → ℕ → ℕ
exit_after asynchronous accepted none exit_code = exit_code
exit_after asynchronous true (some _) exit_code = exit_code
exit_after true false (some _) exit_code = exit_code
exit_after false false (some _) exit_code = 1

-- `_commit`; `accepted` says that the broker's `commit` does not raise.
unfoldable pub commit : Bool → Bool → Consumer → Consumer × Option (List (TopicPartition × ℕ))
unfolding collect
commit asynchronous accepted c =
    let (offsets, last) = collect (snapshot c.watermark) c.last_committed in
    let request = request_of offsets in
    (
      record c {
        last_committed = last;
        exit_code = exit_after asynchronous accepted request c.exit_code;
      },
      request,
    )
