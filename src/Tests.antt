-- ===== src/Tests.antt =====
-- Runs of the processor, the client, the endpoints, the store and the teardown, and the theorems at
-- them.
pub mod Endpoints
mod RoundTrips
use event_pipeline_extension.Prelude.{
  ℕ, String, ◌<>◌, ◌≡◌, ◌≢◌, ◌⊎◌, ◌↔◌, refl, inl, inr, Bool, true, false, ◌&&◌, Option, none, some,
  List, [], ◌∷◌, arith, ◌==◌, string_eq, eq_law, eq_self, sym, ap, ◌∙◌, if◌then◌else◌,
}
use event_pipeline_extension.Prelude.Result.{Result, ok, raise, ◌>>=◌}
use event_pipeline_extension.Errors.{Exception, json_decode_error, unicode_decode_error}
use event_pipeline_extension.Dict as Dict
use event_pipeline_extension.Json as Json
use event_pipeline_extension.Json.{Json, dict, field, end, str, null, int, pos}
use event_pipeline_extension.EventId.{
  Codec, peek_event_id, peek_value, peek_payload, extract_event_id, find_candidate, str_of,
  or_generated, extract-peek,
}
use event_pipeline_extension.Store.{
  EventStore, EventRecord, DateTime, processed, mark_pending, mark_processed, mark_unless_processed,
  lookup, processed_record, pending_record, init,
}
use event_pipeline_extension.Store.History.{
  Call, pend, done, perform, replay, view, last_done, seen, IsValid, lookup-replay, replay-IsValid,
  processed_stays,
}
use event_pipeline_extension.Processor.{
  Minio, IsLawful, XmlCodec, object_key, parse, render, process,
}
use event_pipeline_extension.Processor.Memory.{memory, empty, memory-IsLawful}
use event_pipeline_extension.Processor.Laws.{
  Ended, process_atomic, process-object_other, process-peek,
}
use event_pipeline_extension.Shutdown.{Teardown, exit_code, exit_code-eq-zero}

program : Unit {0}
unfolding Dict.get Dict.put Json.get Json.truthy peek_event_id peek_value peek_payload
    extract_event_id find_candidate str_of mark_pending mark_processed lookup replay perform parse
    render process exit_code
program = tt

-- A body is an envelope with this id, whatever its bytes are.
abbrev body : Json
body = dict (field "id" (str "") (field "payload" (dict (field "id" (str "evt-1") end)) end))

abbrev codec : Codec
codec = record { decode = λ raw. ok ""; loads = λ text. ok body; repr = λ v. "" }

extract-peek_example :
    extract_event_id codec "new" body ≡ or_generated codec "new" (peek_value codec body)
extract-peek_example = extract-peek codec "new" body

found_in_payload : peek_value codec body ≡ some "evt-1"
unfolding program
found_in_payload = refl

abbrev calls : List Call
calls = pend "evt-1" ∷ done "evt-1" "evt-1.xml" 7 ∷ pend "evt-2" ∷ []

lookup-replay_example :
    lookup (replay calls) "evt-1" ≡ some (processed_record "evt-1" "evt-1.xml" 7)
unfolding view last_done
lookup-replay_example = lookup-replay "evt-1" calls

abbrev xml : XmlCodec
xml = record { unparse = λ v. ok "<event/>"; encode = λ text. ok (1 ∷ []) }

process_atomic_example :
    Ended codec xml memory "events" "new" 7
      (some [])
      init
      (process codec xml memory "events" "new" 7 (some []) empty init)
process_atomic_example =
    process_atomic codec xml memory "events" memory-IsLawful "new" 7 (some []) empty init

abbrev clean : Teardown
clean = record {
  server_crashed = false;
  consumer_alive = false;
  consumer_exit = 0;
  pool_stopped = true;
  flushed = some 0;
}
