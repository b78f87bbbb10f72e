-- ===== src/Processor.antt =====
-- event_processor/processor.py: a message body is parsed, turned into XML, and put into the object
-- store under `{event_id}.xml`.
pub mod Laws
pub mod Memory
use event_pipeline_extension.Prelude.{ℕ, String, ◌<>◌, ◌≡◌, ◌≢◌, ◌⊎◌, Option, none, some, List}
use event_pipeline_extension.Prelude.Result.{Result, ok, raise, ◌>>=◌}
use event_pipeline_extension.Errors.{Exception, attribute_error}
use event_pipeline_extension.Json.{Json}
use event_pipeline_extension.EventId.{Codec, extract_event_id}
use event_pipeline_extension.Store.{EventStore, DateTime, mark_processed}

-- The object store: `put_object` of a bucket, a key and a body, and what a bucket holds at a key.
pub record Minio : Type 1 where
  pub State : Type 0
  pub put_object : State → String → String → List ℕ → Result Exception (Unit {0}) × State
  pub object : State → String → String → Option (List ℕ)

-- What the processor relies on: a put that returns has stored the body, over what the key held, and
-- no put touches another object.
pub record IsLawful (minio : Minio) : Type 0 where
  pub stored :
      (s t : minio.State) (bucket key : String) (body : List ℕ)
      → minio.put_object s bucket key body ≡ (ok tt, t)
      → minio.object t bucket key ≡ some body
  pub others :
      (s : minio.State) (bucket key : String) (body : List ℕ) (b k : String)
      → (b ≢ bucket) ⊎ (k ≢ key)
      → minio.object (minio.put_object s bucket key body).1 b k ≡ minio.object s b k

-- A put that raises has stored the body as a whole, or has left the object as it was.
pub record IsAtomic (minio : Minio) : Type 0 where
  pub whole :
      (s t : minio.State) (bucket key : String) (body : List ℕ) (ex : Exception)
      → minio.put_object s bucket key body ≡ (raise ex, t)
      → (minio.object t bucket key ≡ minio.object s bucket key)
        ⊎ (minio.object t bucket key ≡ some body)

-- `xmltodict.unparse({"event": data}, pretty=True)` and `str.encode("utf-8")`.
pub record XmlCodec : Type 0 where
  pub unparse : Json → Result Exception String
  pub encode : String → Result Exception (List ℕ)

-- `f"{event_id}.xml"`
abbrev pub object_key : String → String
object_key event_id = event_id <> ".xml"

module _ (codec : Codec) (xml : XmlCodec) (minio : Minio) (bucket : String) where
  -- `json.loads(raw_value.decode("utf-8"))`
  unfoldable pub parse : Option (List ℕ) → Result Exception Json
  parse none = raise attribute_error
  parse (some raw) = do text ← codec.decode raw; codec.loads text

  abbrev pub render_parsed : String → Result Exception Json → Result Exception (String × List ℕ)
  render_parsed generated parsed = do
    value ← parsed
    text ← xml.unparse value
    body ← xml.encode text
    ok (extract_event_id codec generated value, body)

  -- What is computed before the first effect: the event id and the body.
  unfoldable pub render : String → Option (List ℕ) → Result Exception (String × List ℕ)
  unfolding parse
  render generated raw_value = render_parsed generated (parse raw_value)

  -- The put, and the note in the store if it returns.
  abbrev pub after_put :
      String
      → DateTime
      → EventStore
      → Result Exception (Unit {0}) × minio.State
      → Result Exception String × minio.State × EventStore
  after_put event_id now store (raise ex, s) = (raise ex, s, store)
  after_put event_id now store (ok _, s) =
      (ok (object_key event_id), s, mark_processed event_id (object_key event_id) now store)

  abbrev pub put_rendered :
      DateTime
      → minio.State
      → EventStore
      → Result Exception (String × List ℕ)
      → Result Exception String × minio.State × EventStore
  put_rendered now s store (raise ex) = (raise ex, s, store)
  put_rendered now s store (ok (event_id, body)) =
      after_put event_id now store (minio.put_object s bucket (object_key event_id) body)

  -- `process`; `generated` is the text of `uuid.uuid4()`, and `now` the time after the put.
  unfoldable pub process :
      String
      → DateTime
      → Option (List ℕ)
      → minio.State
      → EventStore
      → Result Exception String × minio.State × EventStore
  process generated now raw_value s store = put_rendered now s store (render generated raw_value)
