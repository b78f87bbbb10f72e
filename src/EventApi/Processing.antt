-- ===== src/EventApi/Processing.antt =====
-- event-api and the processor together: the message of an event that was created, at the consumer and
-- at `process`.
use mathlib.Core.Path.{subst}
use event_pipeline_extension.Prelude.{
  ℕ, String, ◌≡◌, ◌≢◌, refl, ap, ◌∙◌, inl, inr, Bool-cases, Option, some, List, ◌==◌, string_eq,
  eq_law,
}
use event_pipeline_extension.Prelude.Result.{ok}
use event_pipeline_extension.Json
use event_pipeline_extension.Json.{Json, Fields}
use event_pipeline_extension.EventId.{
  Codec, peek_event_id, peek_value, extract_event_id, or_generated, extract-peek, str_of,
}
use event_pipeline_extension.Store.{EventStore, DateTime}
use event_pipeline_extension.Processor.{
  Minio, IsLawful, XmlCodec, object_key, render, parse, process,
}
use event_pipeline_extension.Api.{respond, is_processed, event_status}
use event_pipeline_extension.Api.RoundTrip.{event_status-process}
use event_pipeline_extension.EventApi.Events as Events
use event_pipeline_extension.EventApi.Events.{
  Repository, Mapper, Template, Platform, World, create_event, message,
}
use event_pipeline_extension.EventApi.Events.Laws.{Created, sent, create_event-Created}

module _ (codec : Codec) (xml : XmlCodec) (minio : Minio) (bucket : String) (platform : Platform)
    (repository : Repository) (mapper : Mapper) (template : Template) where
  message-peek :
      (id : String) (body : Option Fields)
      → id ≢ ""
      → peek_value codec (message platform repository mapper template id body) ≡ some id
  unfolding peek_value Json.get Json.truthy str_of
  message-peek id body h = elim (Bool-cases (id == "")) [
    | inl empty ↦ absurd (h ((eq_law id "").0 empty))
    | inr full ↦ rw full refl
  ]

  message-extract :
      (generated id : String) (body : Option Fields)
      → id ≢ ""
      → extract_event_id codec generated (message platform repository mapper template id body) ≡ id
  message-extract generated id body h =
      extract-peek codec generated (message platform repository mapper template id body)
      ∙ ap (or_generated codec generated) (message-peek id body h)

  sent_envelope :
      (id : String) (now : ℕ) (body : Option Fields)
      (w t : World platform repository mapper template) (result envelope : String)
      → Created platform repository mapper template id now body w (ok result, t)
      → mapper.write (message platform repository mapper template id body) ≡ ok envelope
      → template.send w.kafka "events" id envelope ≡ (ok tt, t.kafka)
  sent_envelope id now body w t result envelope (sent payload written hp he stored hs) e =
      let same : written ≡ envelope = cc in
      subst (λ x. template.send w.kafka "events" id x ≡ (ok tt, t.kafka)) same hs

  -- What the two services have between them: the message in Kafka is UTF-8 and is JSON, the processor
  -- can write it as XML and put it.
  pub record IsReadable (id : String) (body : Option Fields) (utf8 : String → List ℕ)
      (envelope : String) (s t : minio.State) (object : List ℕ) : Type 0 where
    pub decoded : codec.decode (utf8 envelope) ≡ ok envelope
    pub loaded : codec.loads envelope ≡ ok (message platform repository mapper template id body)
    pub text : String
    pub unparsed : xml.unparse (message platform repository mapper template id body) ≡ ok text
    pub encoded : xml.encode text ≡ ok object
    pub put : minio.put_object s bucket (object_key id) object ≡ (ok tt, t)

  render-message :
      (generated id : String) (body : Option Fields) (utf8 : String → List ℕ) (envelope : String)
      (s t : minio.State) (object : List ℕ)
      → id ≢ ""
      → IsReadable id body utf8 envelope s t object
      → render codec xml minio bucket generated (some (utf8 envelope)) ≡ ok (id, object)
  unfolding render parse
  render-message generated id body utf8 envelope s t object h v =
      rw (v.decoded, v.loaded, v.unparsed, v.encoded, message-extract generated id body h) refl

  -- From the creation to the object: if the repository and the object store are lawful, `create_event`
  -- of a non-empty id returned, its envelope is readable by the processor as JSON and as XML, and the
  -- put returns, then this envelope was sent under the id, the consumer finds the id in it, and
  -- `process` of it returns the key of the id, has stored the XML under the key, and the status
  -- endpoint reports the event as processed, with the key and the time.
  pub process-create_event :
      Events.IsLawful repository
      → IsLawful minio
      → (id : String) (now : ℕ) (body : Option Fields)
        (w t : World platform repository mapper template) (result envelope : String)
        (utf8 : String → List ℕ) (generated : String) (later : DateTime) (s s' : minio.State)
        (store : EventStore) (object : List ℕ)
      → id ≢ ""
      → create_event platform repository mapper template id now body w ≡ (ok result, t)
      → mapper.write (message platform repository mapper template id body) ≡ ok envelope
      → IsReadable id body utf8 envelope s s' object
      → (template.send w.kafka "events" id envelope ≡ (ok tt, t.kafka))
        × (peek_event_id codec (some (utf8 envelope)) ≡ ok (some id))
        × ((process codec xml minio bucket generated later (some (utf8 envelope)) s store).0
            ≡ ok (object_key id))
        × (minio.object
              (process codec xml minio bucket generated later (some (utf8 envelope)) s store).1
              bucket
              (object_key id)
            ≡ some object)
        × (event_status
              (process codec xml minio bucket generated later (some (utf8 envelope)) s store).2
              id
            ≡ respond 200 (is_processed (some (object_key id)) (some later)))
  unfolding process peek_event_id
  process-create_event lawful stores id now body w t result envelope utf8 generated later s s' store
        object h e written v =
      let created =
        subst (Created platform repository mapper template id now body w) e
          (create_event-Created platform repository mapper template lawful id now body w) in
      let rendered = render-message generated id body utf8 envelope s s' object h v in
      let peeked : peek_event_id codec (some (utf8 envelope)) ≡ ok (some id) =
        rw (v.decoded, v.loaded) (ap (λ o. ok o) (message-peek id body h)) in
      let key : (process codec xml minio bucket generated later (some (utf8 envelope)) s store).0
          ≡ ok (object_key id) =
        rw (rendered, v.put) refl in
      (
        sent_envelope id now body w t result envelope created written,
        peeked,
        key,
        rw (rendered, v.put) (stores.stored s s' bucket (object_key id) object v.put),
        event_status-process codec xml minio bucket stores generated later (some (utf8 envelope)) s
            store id (object_key id) peeked key,
      )
