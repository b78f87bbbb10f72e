-- ===== src/EventId.antt =====
-- The two places that find the event id of a message body: `_peek_event_id` of
-- event_processor/consumer.py and `_extract_event_id` of event_processor/processor.py.
use event_pipeline_extension.Prelude.{
  ℕ, String, ◌≡◌, refl, false, Option, none, some, List, arith, Bool-cases, inl, inr, if◌then◌else◌,
}
use event_pipeline_extension.Prelude.Result.{Result, ok, raise, ◌>>=◌}
use event_pipeline_extension.Errors.{
  Exception, unicode_decode_error, json_decode_error, attribute_error,
}
use event_pipeline_extension.Json
use event_pipeline_extension.Json.{Json, Fields, dict, str, null, truthy}

-- What the processor calls of the standard library: `bytes.decode("utf-8")`, `json.loads`, and `str`
-- of a value that is no `str`.
pub record Codec : Type 0 where
  pub decode : List ℕ → Result Exception String
  pub loads : String → Result Exception Json
  pub repr : Json → String

module _ (codec : Codec) where
  -- `str(value)`
  unfoldable pub str_of : Json → String
  str_of (str s) = s
  str_of v = codec.repr v

  unfoldable pub peek_payload : Json → Option String
  unfolding str_of
  peek_payload (dict payload) =
      let candidate = Json.get "id" payload in
      if truthy candidate then some (str_of candidate) else none
  peek_payload _ = none

  -- The part of `_peek_event_id` behind the parse.
  unfoldable pub peek_value : Json → Option String
  unfolding peek_payload
  peek_value (dict fields) =
      let candidate = Json.get "id" fields in
      if truthy candidate then some (str_of candidate) else peek_payload (Json.get "payload" fields)
  peek_value _ = none

  -- The `except` clause: a body that does not decode or parse has no id.
  abbrev pub peek_parsed : Result Exception Json → Result Exception (Option String)
  peek_parsed (ok value) = ok (peek_value value)
  peek_parsed (raise unicode_decode_error) = ok none
  peek_parsed (raise json_decode_error) = ok none
  peek_parsed (raise ex) = raise ex

  -- A message without a value has no `decode`.
  unfoldable pub peek_event_id : Option (List ℕ) → Result Exception (Option String)
  peek_event_id none = raise attribute_error
  peek_event_id (some raw) = peek_parsed (do text ← codec.decode raw; codec.loads text)

  abbrev pub payload_candidate : Json → Json → Json
  payload_candidate (dict payload) candidate = Json.get "id" payload
  payload_candidate _ candidate = candidate

  unfoldable pub find_candidate : Json → Json
  find_candidate (dict fields) =
      let candidate = Json.get "id" fields in
      if truthy candidate
      then candidate
      else payload_candidate (Json.get "payload" fields) candidate
  find_candidate _ = null

  -- `_extract_event_id`; `generated` is the text of `uuid.uuid4()`.
  unfoldable pub extract_event_id : String → Json → String
  unfolding find_candidate str_of
  extract_event_id generated value =
      let candidate = find_candidate value in
      if truthy candidate then str_of candidate else generated

  abbrev pub or_generated : String → Option String → String
  or_generated generated none = generated
  or_generated generated (some id) = id

  payload-peek :
      (generated : String) (candidate v : Json)
      → truthy candidate ≡ false
      → (if truthy (payload_candidate v candidate)
          then str_of (payload_candidate v candidate)
          else generated)
        ≡ or_generated generated (peek_payload v)
  unfolding peek_payload
  payload-peek generated candidate (dict payload) h = ground arith
  payload-peek generated candidate _ h = ground arith

  -- The consumer marks an event pending under the id under which the processor will store it: on any
  -- parsed body the processor's id is the one that the consumer found, and a generated one exactly
  -- where the consumer found none.
  pub extract-peek :
      (generated : String) (value : Json)
      → extract_event_id generated value ≡ or_generated generated (peek_value value)
  unfolding extract_event_id peek_value
  extract-peek generated (dict fields) = elim (Bool-cases (truthy (Json.get "id" fields))) [
    | inl found ↦ rw (found, found)
    | inr missing ↦
        rw missing
          (payload-peek generated (Json.get "id" fields) (Json.get "payload" fields) missing)
  ]
  extract-peek generated _ = unfold truthy in refl
