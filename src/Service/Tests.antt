-- ===== src/Service/Tests.antt =====
-- A message from the broker to the object store, and the theorems at that run.
use event_pipeline_extension.Prelude.{◌≡◌, refl, inl, true, some, [], ◌∷◌, arith, All}
use event_pipeline_extension.Prelude.Result.{ok}
use event_pipeline_extension.Dict as Dict
use event_pipeline_extension.IntSet as IntSet
use event_pipeline_extension.Json as Json
use event_pipeline_extension.Json.{Json, dict, field, end, str}
use event_pipeline_extension.EventId.{
  Codec, peek_event_id, peek_value, extract_event_id, find_candidate, str_of,
}
use event_pipeline_extension.Store.{mark_pending, mark_processed}
use event_pipeline_extension.Store.History.{perform}
use event_pipeline_extension.Processor.{XmlCodec, process, render, parse}
use event_pipeline_extension.Processor.Memory.{memory, empty, memory-IsLawful, memory-IsAtomic}
use event_pipeline_extension.Pool as Pool
use event_pipeline_extension.Pool.{WorkerPool, waiting, unstarted}
use event_pipeline_extension.Watermark as Watermark
use event_pipeline_extension.Consumer.{Message, dispatch, drain_one, collect, commit}
use event_pipeline_extension.System.{
  dispatches, subscribes, submits, takes, drains, drained, commits, after_commit, first_offset,
}
use event_pipeline_extension.Service.{Service, Reach, begun, later, threads, puts, notes, returns}
use event_pipeline_extension.Service.Invariant.{KeptIf}
use event_pipeline_extension.Service.Alone.{HasDone, steps-process}
use event_pipeline_extension.Service.Latest.{Latest, object_in}
use event_pipeline_extension.Service.Latest.Object.{latest_object}
use event_pipeline_extension.Service.Restarts.{
  Runs, installed, ended, crashed, Resumes, HasObject, objects_before, read_by, ended_by,
  restarts_keep,
}
use event_pipeline_extension.Service.Safety.{finished_kept, committed_kept, IsLossless}

abbrev codec : Codec
codec = record {
  decode = λ raw. ok "";
  loads = λ text. ok (dict (field "id" (str "evt-1") end));
  repr = λ v. "";
}

abbrev xml : XmlCodec
xml = record { unparse = λ v. ok "<event/>"; encode = λ text. ok (1 ∷ []) }

abbrev first : Message
first = record { tp = ("events", 0); offset = 5; key = some (7 ∷ []); value = some [] }

program : Unit {0}
unfolding dispatch peek_event_id peek_value drain_one commit collect after_commit mark_pending
    mark_processed perform render parse extract_event_id find_candidate str_of Json.get Json.truthy
    Pool.init Pool.start Pool.submit Pool.put Pool.take Pool.finish Pool.route Pool.from_bytes
    Watermark.observe Watermark.complete Watermark.complete_partition Watermark.advance
    Watermark.snapshot Dict.get Dict.put Dict.map_values IntSet.contains IntSet.add IntSet.remove
program = tt

record Run : Type 0 where
  last : Service memory
  reach : Reach codec xml memory "events" 2 3 last

-- The message is dispatched, taken, put, noted, drained and committed.
committed : Run
unfolding program
committed = record {
  last = _;
  reach =
      later
        (later
          (later
            (later
              (later
                (later
                  (later
                    (later
                      (later (later (begun empty refl refl) (threads (subscribes refl) tt))
                        (threads (dispatches first refl refl) tt))
                      (threads (submits first refl refl) tt))
                    (threads (takes 1 (omega arith) refl) tt))
                  (puts 1 first "new" "evt-1" (1 ∷ []) refl refl refl refl))
                (notes 1 "evt-1" 9 refl))
              (returns 1 first "evt-1" (omega arith) refl refl))
            (threads (drains _ [] (inl refl) refl) tt))
          (threads (drained refl refl) tt))
        (threads (commits true refl) tt);
}

finished_kept_example :
    All
      (KeptIf codec xml memory "events" committed.last.objects committed.last.system.store)
      committed.last.system.finished
finished_kept_example =
    finished_kept codec xml memory "events" memory-IsLawful memory-IsAtomic committed.reach

committed_kept_example :
    All (IsLossless codec xml memory "events" committed.last) committed.last.system.requested
committed_kept_example =
    committed_kept codec xml memory "events" memory-IsLawful memory-IsAtomic committed.reach

committed_requested : committed.last.system.requested ≡ (("events", 0), 6) ∷ []
unfolding committed
committed_requested = refl

-- The message is dispatched and taken, and the process dies.
died : Run
unfolding program
died = record {
  last = _;
  reach =
      later
        (later
          (later (later (begun empty refl refl) (threads (subscribes refl) tt))
            (threads (dispatches first refl refl) tt))
          (threads (submits first refl refl) tt))
        (threads (takes 1 (omega arith) refl) tt);
}

died-Resumes : Resumes codec xml memory "events" ("events", 0) 5 died.last
unfolding died first_offset
died-Resumes o e = ground arith

committed-Resumes : Resumes codec xml memory "events" ("events", 0) 5 committed.last
unfolding committed first_offset
committed-Resumes o e = ground arith

-- The message is read again after the restart.
two_runs : Runs codec xml memory "events" 2 3 ("events", 0) 5 6 committed.last.objects
unfolding committed died objects_before
two_runs =
    ended 6 (crashed (installed empty) died.reach refl died-Resumes) committed.reach refl
      committed-Resumes (inl refl)

restarts_keep_example :
    HasObject codec xml memory "events"
      (read_by codec xml memory "events" two_runs)
      (ended_by codec xml memory "events" two_runs)
      committed.last.objects
      ("events", 0)
      5
restarts_keep_example =
    restarts_keep codec xml memory "events" memory-IsLawful memory-IsAtomic two_runs 5 (omega arith)
      (omega arith)

steps-process_example :
    HasDone codec xml memory "events" died.last 1 (
      process codec xml memory "events" "new" 9 first.value died.last.objects
        died.last.system.store)
unfolding died
steps-process_example = steps-process codec xml memory "events" died.last 1 first "new" 9 refl refl

latest_object_example :
    Latest codec xml memory "events" "evt-1.xml" committed.last.system.finished
      (object_in codec xml memory "events" "evt-1.xml" committed.last.objects)
unfolding committed Pool.route Pool.from_bytes
latest_object_example =
    latest_object codec xml memory "events" "evt-1.xml" memory-IsLawful memory-IsAtomic
      (some (7 ∷ [])) committed.reach ((λ body writing. refl), tt) refl
