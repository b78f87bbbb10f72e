-- ===== src/System/Tests.antt =====
-- Runs of the interleaved threads, and the theorems at them.
use event_pipeline_extension.Prelude.{
  ℕ, IsIn, ◌≡◌, refl, inl, nat_eq, string_eq, pair_eq, true, false, none, some, [], ◌∷◌, ◌++◌,
  arith, All, ltb, if◌then◌else◌,
}
use event_pipeline_extension.Prelude.Result.{raise}
use event_pipeline_extension.Errors.{unicode_decode_error, json_decode_error}
use event_pipeline_extension.Dict as Dict
use event_pipeline_extension.IntSet as IntSet
use event_pipeline_extension.EventId.{Codec, peek_event_id}
use event_pipeline_extension.Pool as Pool
use event_pipeline_extension.Pool.{WorkerPool, waiting, unstarted}
use event_pipeline_extension.Pool.Order.{of_key}
use event_pipeline_extension.Watermark as Watermark
use event_pipeline_extension.Consumer.{Message, dispatch, drain_one, collect, commit}
use event_pipeline_extension.System.{
  System, Reach, begun, later, Step, subscribes, dispatches, submits, takes, finishes, drains,
  drained, commits, waits, stops, drained_last, closes_loop, after_commit, after_run, init, polling,
  closed, finishing, first_offset,
}
use event_pipeline_extension.System.Invariant.{IsSafe}
use event_pipeline_extension.System.Closing.{Later, now, next}
use event_pipeline_extension.System.Safety.{
  at_least_once, refused_commit_forgotten, null_value_ends_loop,
}
use event_pipeline_extension.System.Committed.{returned_requested}
use event_pipeline_extension.Watermark.{next_to_commit}
use event_pipeline_extension.System.Order.{per_key_order, key_of}

-- No body decodes.
abbrev codec : Codec
codec = record {
  decode = λ raw. raise unicode_decode_error;
  loads = λ text. raise json_decode_error;
  repr = λ v. "";
}

abbrev first : Message
first = record { tp = ("events", 0); offset = 5; key = some (7 ∷ []); value = some [] }

program : Unit {0}
unfolding dispatch peek_event_id drain_one commit collect after_commit after_run Pool.init
    Pool.start Pool.submit Pool.put Pool.take Pool.finish Pool.route Pool.from_bytes
    Watermark.observe Watermark.complete Watermark.complete_partition Watermark.advance
    Watermark.snapshot Dict.get Dict.put Dict.map_values IntSet.contains IntSet.add IntSet.remove
program = tt

abbrev pool : WorkerPool Message
pool = record {
  num_workers = 2;
  queue_size = 3;
  queues = λ i. [];
  threads = λ i. if ltb i 2 then waiting else unstarted;
  started = true;
}

abbrev subscribed : System
subscribed = record (init pool) { phase = polling }

started : Reach codec 2 3 subscribed
unfolding program
started = later (begun refl refl) (subscribes refl)

record Run : Type 0 where
  last : System
  reach : Reach codec 2 3 last

-- One message was dispatched, processed and drained, and the consumer thread may commit it.
ready : Run
unfolding program
ready = record {
  last = _;
  reach =
      later
        (later
          (later
            (later (later (later started (dispatches first refl refl)) (submits first refl refl))
              (takes 1 (omega arith) refl))
            (finishes 1 first true (omega arith) refl))
          (drains _ [] (inl refl) refl))
        (drained refl refl);
}

abbrev refused : System
refused = after_commit true false polling ready.last

abbrev ended : System
ended = after_run (after_commit false true closed (record refused { phase = finishing }))

at_least_once_example : All (IsSafe (first ∷ []) ((first, true) ∷ [])) ((("events", 0), 6) ∷ [])
unfolding ready
at_least_once_example = at_least_once codec (later ready.reach (commits true refl))

per_key_order_example :
    first ∷ [] ≡ of_key key_of (some (7 ∷ [])) [] ++ of_key key_of (some (7 ∷ [])) (first ∷ [])
unfolding program
per_key_order_example =
    per_key_order codec
      (later (later (later started (dispatches first refl refl)) (submits first refl refl))
        (takes 1 (omega arith) refl))
      (some (7 ∷ []))

-- The offset 6 is requested once, of a broker that refuses, and never again.
refused_commit_forgotten_example :
    (ended.requested ≡ refused.requested)
    × (ended.consumer.exit_code ≡ ready.last.consumer.exit_code)
unfolding ready
refused_commit_forgotten_example = refused_commit_forgotten codec true ready.reach refl

refused_commit_requested : refused.requested ≡ (("events", 0), 6) ∷ []
unfolding ready
refused_commit_requested = refl

abbrev tombstone : Message
tombstone = record first { value = none }

null_value_ends_loop_example :
    (t t' u : System) × Step codec subscribed t
    × Step codec t t'
    × Step codec t' u
    × (u.phase ≡ closed)
    × (u.consumer.exit_code ≡ 1)
    × (u.polled ≡ [])
null_value_ends_loop_example = null_value_ends_loop codec tombstone true refl refl refl

-- The loop returns while a message is queued.
returned : Run
unfolding program
returned = record {
  last = _;
  reach =
      later
        (later
          (later
            (later
              (later (later (later started (dispatches first refl refl)) (submits first refl refl))
                (drained refl refl))
              (waits refl))
            (stops refl))
          (drained_last refl refl))
        (closes_loop true refl);
}

record Rest : Type 0 where
  last : System
  run : Later codec returned.last last

-- The worker then takes the message and finishes it.
rest : Rest
unfolding returned
rest = record {
  last = _;
  run = next (next now (takes 1 (omega arith) refl)) (finishes 1 first true (omega arith) refl);
}

rest_finished :
    (rest.last.finished ≡ (first, true) ∷ []) × (returned.last.requested ≡ (("events", 0), 5) ∷ [])
unfolding rest
rest_finished = (refl, refl)

-- The message is dispatched but not finished, and its offset is requested, as the one to go on at.
returned_requested_example :
    (o : ℕ) × (next_to_commit ("events", 0) returned.last.consumer.watermark ≡ some o)
    × IsIn (("events", 0), o) returned.last.requested
unfolding returned
returned_requested_example =
    returned_requested codec ("events", 0) 5 returned.reach refl (unfold first_offset in refl)
