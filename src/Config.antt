-- ===== src/Config.antt =====
-- event_processor/config.py: settings from the environment, each with a default.
pub mod Laws
use event_pipeline_extension.Prelude.{
  ℕ, Bool, String, Option, none, some, ◌==◌, string_eq, if◌then◌else◌,
}
use event_pipeline_extension.Prelude.Result.{Result, ok, ◌>>=◌}
use event_pipeline_extension.Errors.{Exception}
use event_pipeline_extension.Dict.{Dict, get}
use event_pipeline_extension.Json.{ℤ, pos}

-- `os.environ`
abbrev pub Environ : Type 0
Environ = Dict String String

abbrev or_default : String → Option String → String
or_default default none = default
or_default default (some value) = value

unfoldable pub env : Environ → String → String → String
unfolding or_default
env environ name default = or_default default (get name environ)

-- `_env_int` and `_env_float`, with Python's `int` or `float` of a text for `parse`.
module _ {A : Type 0} (parse : String → Result Exception A) where
  abbrev parse_or : A → Option String → Result Exception A
  parse_or default none = ok default
  parse_or default (some raw) = if raw == "" then ok default else parse raw

  unfoldable pub env_parsed : Environ → String → A → Result Exception A
  unfolding parse_or
  env_parsed environ name default = parse_or default (get name environ)

-- A float is given by its 64 bits.
abbrev pub Float : Type 0
Float = ℕ

pub record Settings : Type 0 where
  pub kafka_bootstrap : String
  pub kafka_topic : String
  pub kafka_group_id : String
  pub kafka_health_timeout : Float
  pub minio_endpoint : String
  pub minio_access_key : String
  pub minio_secret_key : String
  pub minio_bucket : String
  pub minio_secure : Bool
  pub http_host : String
  pub http_port : ℤ
  pub worker_count : ℤ
  pub worker_queue_size : ℤ
  pub shutdown_timeout_seconds : Float
  pub event_api_base_url : String
  pub event_api_username : String
  pub event_api_password : String
  pub event_api_connect_timeout : Float
  pub event_api_read_timeout : Float
  pub log_level : String

-- Python's `int` and `float` of a text, and `str.lower`.
pub record Parser : Type 0 where
  pub int : String → Result Exception ℤ
  pub float : String → Result Exception Float
  pub lower : String → String

-- The module's assignments in their order: the first that raises ends the import.
module _ (parser : Parser) where
  unfoldable pub load : Environ → Result Exception Settings
  load environ = do
    kafka_health_timeout ← env_parsed parser.float environ "KAFKA_HEALTH_TIMEOUT" 0x4000000000000000
    http_port ← env_parsed parser.int environ "HTTP_PORT" (pos 8081)
    worker_count ← env_parsed parser.int environ "WORKER_COUNT" (pos 4)
    worker_queue_size ← env_parsed parser.int environ "WORKER_QUEUE_SIZE" (pos 100)
    shutdown_timeout ← env_parsed parser.float environ "SHUTDOWN_TIMEOUT_SECONDS" 0x403e000000000000
    connect_timeout ← env_parsed parser.float environ "EVENT_API_CONNECT_TIMEOUT" 0x4008000000000000
    read_timeout ← env_parsed parser.float environ "EVENT_API_READ_TIMEOUT" 0x4014000000000000
    ok (record {
      kafka_bootstrap = env environ "KAFKA_BOOTSTRAP" "localhost:9092";
      kafka_topic = env environ "KAFKA_TOPIC" "events";
      kafka_group_id = env environ "KAFKA_GROUP_ID" "event-processor-group";
      kafka_health_timeout = kafka_health_timeout;
      minio_endpoint = env environ "MINIO_ENDPOINT" "localhost:9000";
      minio_access_key = env environ "MINIO_ACCESS_KEY" "minioadmin";
      minio_secret_key = env environ "MINIO_SECRET_KEY" "minioadmin";
      minio_bucket = env environ "MINIO_BUCKET" "events";
      minio_secure = parser.lower (env environ "MINIO_SECURE" "false") == "true";
      http_host = env environ "HTTP_HOST" "0.0.0.0";
      http_port = http_port;
      worker_count = worker_count;
      worker_queue_size = worker_queue_size;
      shutdown_timeout_seconds = shutdown_timeout;
      event_api_base_url = env environ "EVENT_API_BASE_URL" "http://localhost:8080";
      event_api_username = env environ "EVENT_API_USERNAME" "user";
      event_api_password = env environ "EVENT_API_PASSWORD" "user123";
      event_api_connect_timeout = connect_timeout;
      event_api_read_timeout = read_timeout;
      log_level = env environ "LOG_LEVEL" "INFO";
    })
