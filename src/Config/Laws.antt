-- ===== src/Config/Laws.antt =====
-- When the settings can be read.
use event_pipeline_extension.Prelude.{
  String, ◌≡◌, ◌≢◌, refl, ◌↔◌, Option, none, some, arith, ◌==◌, string_eq, eq_law, Bool-cases, inl,
  inr,
}
use event_pipeline_extension.Prelude.Result.{Result, ok, raise, ◌>>=◌}
use event_pipeline_extension.Errors.{Exception}
use event_pipeline_extension.Dict.{get}
use event_pipeline_extension.Config.{Environ, Settings, Parser, env_parsed, load, parse_or}

module _ {A : Type 0} (parse : String → Result Exception A) where
  -- The variable is not set, or is empty, or has a text that parses.
  abbrev pub IsReadable : Environ → String → Type 0
  IsReadable environ name =
      (raw : String) → get name environ ≡ some raw → raw ≢ "" → (a : A) × (parse raw ≡ ok a)

  parse_or-ok :
      (default : A) (o : Option String) {a : A}
      → parse_or parse default o ≡ ok a
      → (raw : String) → o ≡ some raw
      → raw ≢ ""
      → (b : A) × (parse raw ≡ ok b)
  parse_or-ok default none e raw p n = cc
  parse_or-ok default (some text) {a} e raw p n = (a, ground (arith, eq_law text ""))

  parse_or_total :
      (default : A) (o : Option String)
      → ((raw : String) → o ≡ some raw → raw ≢ "" → (b : A) × (parse raw ≡ ok b))
      → (a : A) × (parse_or parse default o ≡ ok a)
  parse_or_total default none h = (default, refl)
  parse_or_total default (some text) h = elim (Bool-cases (text == "")) [
    | inl blank ↦ (default, rw blank refl)
    | inr full ↦ let (b, e) = h text refl (λ same. ground (arith, eq_law text "")) in (b, rw full e)
  ]

  env_parsed-IsReadable :
      (environ : Environ) (name : String) (default : A)
      → ((a : A) × (env_parsed parse environ name default ≡ ok a)) ↔ IsReadable environ name
  unfolding env_parsed
  env_parsed-IsReadable environ name default = (
    λ p. parse_or-ok default (get name environ) p.1,
    λ h. parse_or_total default (get name environ) h,
  )

module _ {A : Type 0} (parse : String → Result Exception A) {B : Type 0} where
  -- A read that comes first in a chain of reads that succeeds.
  read_first :
      (environ : Environ) (name : String) (default : A) (later : A → Result Exception B) (end : B)
      → (env_parsed parse environ name default >>= later) ≡ ok end
      → IsReadable parse environ name × (value : A) × (later value ≡ ok end)
  read_first environ name default later end e = split (env_parsed parse environ name default) refl e
    where
      split :
          (r : Result Exception A)
          → env_parsed parse environ name default ≡ r
          → (r >>= later) ≡ ok end
          → IsReadable parse environ name × (value : A) × (later value ≡ ok end)
      split (ok value) read h =
          ((env_parsed-IsReadable parse environ name default).0 (value, read), value, h)
      split (raise ex) read h = cc

  -- A variable that is readable in front of a chain of reads that succeeds.
  read_total :
      (environ : Environ) (name : String) (default : A) (later : A → Result Exception B)
      → IsReadable parse environ name
      → ((value : A) → (end : B) × (later value ≡ ok end))
      → (end : B) × ((env_parsed parse environ name default >>= later) ≡ ok end)
  read_total environ name default later readable rest =
      let (value, read) = (env_parsed-IsReadable parse environ name default).1 readable in
      let (end, h) = rest value in (end, rw read h)

module _ (parser : Parser) where
  -- Each variable that is read as a number is readable as one.
  pub record AllReadable (environ : Environ) : Type 0 where
    pub kafka_health_timeout : IsReadable parser.float environ "KAFKA_HEALTH_TIMEOUT"
    pub http_port : IsReadable parser.int environ "HTTP_PORT"
    pub worker_count : IsReadable parser.int environ "WORKER_COUNT"
    pub worker_queue_size : IsReadable parser.int environ "WORKER_QUEUE_SIZE"
    pub shutdown_timeout : IsReadable parser.float environ "SHUTDOWN_TIMEOUT_SECONDS"
    pub connect_timeout : IsReadable parser.float environ "EVENT_API_CONNECT_TIMEOUT"
    pub read_timeout : IsReadable parser.float environ "EVENT_API_READ_TIMEOUT"

  load-AllReadable_of :
      (environ : Environ) (s : Settings) → load parser environ ≡ ok s → AllReadable environ
  unfolding load
  load-AllReadable_of environ s e =
      let (a, _, e1) = read_first parser.float environ _ _ _ s e in
      let (b, _, e2) = read_first parser.int environ _ _ _ s e1 in
      let (c, _, e3) = read_first parser.int environ _ _ _ s e2 in
      let (d, _, e4) = read_first parser.int environ _ _ _ s e3 in
      let (f, _, e5) = read_first parser.float environ _ _ _ s e4 in
      let (g, _, e6) = read_first parser.float environ _ _ _ s e5 in
      let (h, _, e7) = read_first parser.float environ _ _ _ s e6 in
      record {
        kafka_health_timeout = a;
        http_port = b;
        worker_count = c;
        worker_queue_size = d;
        shutdown_timeout = f;
        connect_timeout = g;
        read_timeout = h;
      }

  load_of-AllReadable :
      (environ : Environ) → AllReadable environ → (s : Settings) × (load parser environ ≡ ok s)
  unfolding load
  load_of-AllReadable environ h = read_total parser.float environ _ _ _ h.kafka_health_timeout λ a.
      read_total parser.int environ _ _ _ h.http_port λ b.
        read_total parser.int environ _ _ _ h.worker_count λ c.
          read_total parser.int environ _ _ _ h.worker_queue_size λ d.
            read_total parser.float environ _ _ _ h.shutdown_timeout λ f.
              read_total parser.float environ _ _ _ h.connect_timeout
                λ g. read_total parser.float environ _ _ _ h.read_timeout λ i. (_, refl)

  -- The settings can be read exactly if each variable that is read as a number is unset, empty, or
  -- set to a text that parses as one: no other variable can make the start fail.
  pub load-AllReadable :
      (environ : Environ) → ((s : Settings) × (load parser environ ≡ ok s)) ↔ AllReadable environ
  load-AllReadable environ = (λ p. load-AllReadable_of environ p.0 p.1, load_of-AllReadable environ)
