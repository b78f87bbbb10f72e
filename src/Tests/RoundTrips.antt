-- ===== src/Tests/RoundTrips.antt =====
-- Runs from an endpoint to the object store and back.
use event_pipeline_extension.Prelude.{
  String, ◌≡◌, refl, some, [], ◌∷◌, arith, string_eq, eq_law, ◌≢◌,
}
use event_pipeline_extension.Prelude.Result.{ok}
use event_pipeline_extension.Json.{Json, dict, field, end, str, null}
use event_pipeline_extension.EventId.{Codec}
use event_pipeline_extension.Api.{respond, is_processed, event_status}
use event_pipeline_extension.Client.New.{rstrip_slash}
use event_pipeline_extension.Api.RoundTrip.{IsInverse, process-envelope}
use event_pipeline_extension.Processor.{XmlCodec, object_key, process}
use event_pipeline_extension.Processor.Memory.{memory, empty, memory-IsLawful}
use event_pipeline_extension.Tests.Endpoints.{encoder, server, broker, program}

not_blank : ◌≢◌ {A = String} "evt-1" ""
not_blank = ground (arith, eq_law {A = String} "evt-1" "")

-- The texts are not looked at: `loads` gives the envelope of the event.
abbrev sent : Json
sent = dict (field "id" (str "evt-1") (field "payload" null end))

abbrev reader : Codec
reader = record { decode = λ raw. ok ""; loads = λ text. ok sent; repr = λ v. "" }

sent-IsInverse : IsInverse reader encoder sent
sent-IsInverse = record { decoded = refl; loaded = refl }

abbrev xml : XmlCodec
xml = record { unparse = λ v. ok "<event/>"; encode = λ text. ok (1 ∷ []) }

process-envelope_example :
    ("evt-1.xml" ≡ object_key "evt-1")
    × (event_status (process reader xml memory "events" "new" 7 (some []) empty []).2 "evt-1"
        ≡ respond 200 (is_processed (some "evt-1.xml") (some 7)))
unfolding program
process-envelope_example =
    process-envelope reader encoder server broker "events" xml memory "events" memory-IsLawful
      "evt-1" null not_blank sent-IsInverse "new" 7 empty [] "evt-1.xml" refl

stripped : rstrip_slash "http://event-api//" ≡ "http://event-api"
unfolding rstrip_slash
stripped = refl
