-- ===== src/EventApi/Tests/Processing.antt =====
-- The message of an event that was created, at the processor.
use event_pipeline_extension.Prelude.{
  ℕ, String, ◌≡◌, ◌≢◌, refl, none, some, List, [], ◌∷◌, arith, eq_law, string_eq,
}
use event_pipeline_extension.Prelude.Result.{ok}
use event_pipeline_extension.EventId.{Codec, peek_event_id}
use event_pipeline_extension.Processor.{XmlCodec, object_key, process}
use event_pipeline_extension.Processor.Memory.{memory, empty, memory-IsLawful}
use event_pipeline_extension.Api.{respond, is_processed, event_status}
use event_pipeline_extension.EventApi.Events.{message}
use event_pipeline_extension.EventApi.Processing.{IsReadable, process-create_event}
use event_pipeline_extension.EventApi.Tests.{
  rows_in_memory, rows_in_memory-IsLawful, sent_values, mapper, platform,
}
use event_pipeline_extension.EventApi.Tests.Events.{start, created, create_first}

abbrev reader : Codec
reader = record {
  decode = λ raw. ok "id;payload;";
  loads = λ text. ok (message platform rows_in_memory mapper sent_values "evt-1" none);
  repr = λ v. "";
}

abbrev xml : XmlCodec
xml = record { unparse = λ v. ok "<event/>"; encode = λ text. ok (1 ∷ []) }

abbrev utf8 : String → List ℕ
utf8 text = 7 ∷ []

readable :
    IsReadable reader xml memory "events" platform rows_in_memory mapper sent_values "evt-1" none
      utf8 "id;payload;" empty
      (memory.put_object empty "events" "evt-1.xml" (1 ∷ [])).1
      (1 ∷ [])
readable = record {
  decoded = refl;
  loaded = refl;
  text = "<event/>";
  unparsed = refl;
  encoded = refl;
  put = refl;
}

not_blank : ◌≢◌ {A = String} "evt-1" ""
not_blank = ground (arith, eq_law {A = String} "evt-1" "")

process-create_event_example :
    (sent_values.send start.kafka "events" "evt-1" "id;payload;" ≡ (ok tt, created.kafka))
    × (peek_event_id reader (some (utf8 "id;payload;")) ≡ ok (some "evt-1"))
    × ((process reader xml memory "events" "new" 9 (some (utf8 "id;payload;")) empty []).0
        ≡ ok (object_key "evt-1"))
    × (memory.object
          (process reader xml memory "events" "new" 9 (some (utf8 "id;payload;")) empty []).1
          "events"
          (object_key "evt-1")
        ≡ some (1 ∷ []))
    × (event_status
          (process reader xml memory "events" "new" 9 (some (utf8 "id;payload;")) empty []).2
          "evt-1"
        ≡ respond 200 (is_processed (some (object_key "evt-1")) (some 9)))
process-create_event_example =
    process-create_event reader xml memory "events" platform rows_in_memory mapper sent_values
      rows_in_memory-IsLawful memory-IsLawful "evt-1" 7 none start created "evt-1" "id;payload;"
      utf8 "new" 9 empty (memory.put_object empty "events" "evt-1.xml" (1 ∷ [])).1 [] (1 ∷ [])
      not_blank create_first refl readable
