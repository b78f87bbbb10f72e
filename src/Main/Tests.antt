-- ===== src/Main/Tests.antt =====
-- Runs of the whole process, of its start and of the settings, and the theorems at them.
use event_pipeline_extension.Prelude.{
  zero, suc, ◌≡◌, ◌↔◌, refl, Bool, true, false, some, [], ◌∷◌, arith, ◌==◌, string_eq,
  if◌then◌else◌,
}
use event_pipeline_extension.Prelude.Result.{ok, raise}
use event_pipeline_extension.Errors.{other_error, unicode_decode_error, json_decode_error}
use event_pipeline_extension.Dict as Dict
use event_pipeline_extension.Dict.{get}
use event_pipeline_extension.Json.{pos}
use event_pipeline_extension.IntSet as IntSet
use event_pipeline_extension.EventId.{Codec, peek_event_id}
use event_pipeline_extension.Pool as Pool
use event_pipeline_extension.Pool.{Key, WorkerPool, waiting, unstarted, all_exited}
use event_pipeline_extension.Pool.Order.{of_key}
use event_pipeline_extension.Watermark as Watermark
use event_pipeline_extension.Consumer.{Message, dispatch, drain_one, collect, commit}
use event_pipeline_extension.System.{
  subscribes, dispatches, submits, drained, waits, stops, drained_last, closes_loop, takes,
  finishes, after_commit, after_run, closed,
}
use event_pipeline_extension.System.Order.{key_of, in_order, worked}
use event_pipeline_extension.Config.{Environ, Settings, Parser, env, env_parsed, load}
use event_pipeline_extension.Config.Laws.{AllReadable, load-AllReadable}
use event_pipeline_extension.Main.{
  Process, Reach, begun, later, threads, served, joined, reads, puts, all_put, shut, flushes,
}
use event_pipeline_extension.Pool.Blocked.{Work, unmoved, took, ended as ended_work}
use event_pipeline_extension.Pool.Termination.{IsAtRest}
use event_pipeline_extension.Main.Graceful.{exit_zero_graceful}
use event_pipeline_extension.Main.Waiting.{waiting_ends}
use event_pipeline_extension.Main.Startup.{Buckets, IsTruthful, start_up, start_pool, ensure_bucket}
use event_pipeline_extension.Main.Startup.Laws.{IsStarted, start_up-IsStarted}

abbrev codec : Codec
codec = record {
  decode = λ raw. raise unicode_decode_error;
  loads = λ text. raise json_decode_error;
  repr = λ v. "";
}

abbrev first : Message
first = record { tp = ("events", 0); offset = 5; key = some (7 ∷ []); value = some [] }

program : Unit {0}
unfolding dispatch peek_event_id drain_one commit collect after_commit after_run Pool.init
    Pool.start Pool.submit Pool.put Pool.close Pool.take Pool.finish Pool.route Pool.from_bytes
    Pool.all_exited Watermark.observe Watermark.snapshot Dict.get Dict.put Dict.map_values
    IntSet.contains IntSet.add IntSet.remove start_up start_pool ensure_bucket load env env_parsed
program = tt

record Run : Type 0 where
  last : Process
  reach : Reach codec 2 3 last

-- The server stops while a message is queued.
stopped : Run
unfolding program
stopped = record {
  last = _;
  reach =
      later
        (later
          (later
            (later
              (later (later (begun refl refl) (threads (subscribes refl) tt))
                (threads (dispatches first refl refl) tt))
              (threads (submits first refl refl) tt))
            (threads (drained refl refl) tt))
          (threads (waits refl) tt))
        (served false refl);
}

-- The loop ends, and the sentinels are put.
sent : Run
unfolding stopped
sent = record {
  last = _;
  reach =
      later
        (later
          (later
            (later
              (later
                (later
                  (later (later stopped.reach (threads (stops refl) refl))
                    (threads (drained_last refl refl) tt))
                  (threads (closes_loop true refl) tt))
                (joined false refl (λ e. refl)))
              (reads refl))
            (puts 0 refl (omega arith) refl))
          (puts 1 refl (omega arith) refl))
        (all_put refl);
}

record Drained : Type 0 where
  pool : WorkerPool Message
  work : Work sent.last.system.pool pool

-- The workers alone work on the message, and return.
drained_pool : Drained
unfolding sent
drained_pool = record {
  pool = _;
  work =
      took 0
        (took 1 (ended_work 1 first (took 1 unmoved (omega arith) refl) (omega arith) refl)
          (omega arith) refl)
        (omega arith) refl;
}

drained_pool-IsAtRest : IsAtRest 2 drained_pool.pool
unfolding drained_pool
drained_pool-IsAtRest zero lt = (refl, refl)
drained_pool-IsAtRest (suc zero) lt = (refl, refl)
drained_pool-IsAtRest (suc (suc i)) lt = absurd (omega arith)

waiting_ends_example : all_exited 2 drained_pool.pool ≡ true
unfolding sent
waiting_ends_example = waiting_ends codec sent.reach refl drained_pool.work drained_pool-IsAtRest

-- The workers drain their queues, and the process exits.
gone : Run
unfolding sent
gone = record {
  last = _;
  reach =
      later
        (later
          (later
            (later (later sent.reach (threads (takes 1 (omega arith) refl) tt))
              (threads (finishes 1 first true (omega arith) refl) tt))
            (threads (takes 1 (omega arith) refl) tt))
          (threads (takes 0 (omega arith) refl) tt))
        (shut true refl (λ e. refl));
}

ended : Run
unfolding gone
ended = record { last = _; reach = later gone.reach (flushes (some 0) refl) }

exit_zero_graceful_example :
    (ended.last.system.phase ≡ closed)
    × (ended.last.system.consumer.exit_code ≡ 0)
    × (all_exited 2 ended.last.system.pool ≡ true)
    × ((k : Key)
        → of_key key_of k (in_order ended.last.system.polled)
          ≡ of_key key_of k (in_order (worked ended.last.system.finished)))
unfolding ended
exit_zero_graceful_example = exit_zero_graceful codec ended.reach refl refl

ended_worked : ended.last.system.finished ≡ (first, true) ∷ []
unfolding ended
ended_worked = refl

-- Only the text "8" is a number.
abbrev parser : Parser
parser = record {
  int = λ text. if text == "8" then ok (pos 8) else raise (other_error "ValueError");
  float = λ text. if text == "8" then ok 0x4020000000000000 else raise (other_error "ValueError");
  lower = λ text. text;
}

abbrev environ : Environ
environ = ("WORKER_COUNT", "8") ∷ ("HTTP_PORT", "") ∷ ("MINIO_SECURE", "true") ∷ []

load-AllReadable_example :
    ((s : Settings) × (load parser environ ≡ ok s)) ↔ AllReadable parser environ
load-AllReadable_example = load-AllReadable parser environ

record Loaded : Type 0 where
  settings : Settings
  loads : load parser environ ≡ ok settings

loaded : Loaded
unfolding program
loaded = record { settings = _; loads = refl }

-- One bucket may be there; it is made if it is not.
abbrev buckets : Buckets
buckets = record {
  State = Bool;
  bucket_exists = λ s bucket. ok s;
  make_bucket = λ s bucket. (ok tt, true);
  has = λ s bucket. s;
}

buckets-IsTruthful : IsTruthful buckets
buckets-IsTruthful = record { answers = λ s bucket found h. cc; made = λ s t bucket h. cc }

record Start : Type 0 where
  process : Process
  starts : start_up buckets loaded.settings false ≡ (ok process, true)

start : Start
unfolding loaded
start = record { process = _; starts = refl }

start_up-IsStarted_example : IsStarted codec buckets loaded.settings start.process true
start_up-IsStarted_example =
    start_up-IsStarted codec buckets buckets-IsTruthful loaded.settings false true start.starts
