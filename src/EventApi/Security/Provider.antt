-- ===== src/EventApi/Security/Provider.antt =====
-- The construction of security/JwtTokenProvider.java: the key and the lifetime of the tokens.
pub mod Laws
use event_pipeline_extension.Prelude.{
  ℕ, suc, ◌-◌, ◌*◌, ◌%◌, ◌≤◌, ◌<◌, String, ◌≡◌, Bool, true, false, Option, none, some, List, length,
  ltb, if◌then◌else◌,
}
use event_pipeline_extension.Prelude.Result.{Result, ok, raise}
use event_pipeline_extension.Json.{ℤ, pos, negsuc}

-- `AppProperties.Jwt`, whose `expirationMinutes` is a `long`.
pub record JwtProperties : Type 0 where
  pub secret : Option String
  pub expiration_minutes : ℤ

-- `String.isBlank`, and the decoder of BASE64.
pub record Texts : Type 0 where
  pub blank : String → Bool
  pub decode : String → Result String (List ℕ)

pub record Provider : Type 0 where
  pub signing_key : List ℕ
  pub expiration_ms : ℤ

-- 2 ^ 64, and a `long` from its bits.
abbrev pub long_size : ℕ
long_size = 18446744073709551616

abbrev pub of_bits : ℕ → ℤ
of_bits n = if ltb n 9223372036854775808 then pos n else negsuc (long_size - 1 - n)

-- `minutes * 60_000L`, which wraps around.
abbrev pub to_ms : ℕ → ℤ
to_ms minutes = of_bits ((minutes * 60000) % long_size)

abbrev pub with_minutes : List ℕ → ℤ → Result String Provider
with_minutes key (pos (suc n)) = ok (record { signing_key = key; expiration_ms = to_ms (suc n) })
with_minutes key _ = raise "app.jwt.expiration-minutes must be > 0"

abbrev pub with_key : ℤ → Result String (List ℕ) → Result String Provider
with_key minutes (raise message) = raise message
with_key minutes (ok key) =
    if ltb (length key) 32
    then raise "app.jwt.secret must decode to at least 32 bytes (HS256)"
    else with_minutes key minutes

module _ (texts : Texts) where
  abbrev pub with_secret : ℤ → Option String → Result String Provider
  with_secret minutes none = raise "app.jwt.secret is required"
  with_secret minutes (some secret) =
      if texts.blank secret
      then raise "app.jwt.secret is required"
      else with_key minutes (texts.decode secret)

  -- `JwtTokenProvider`, without the warning of a placeholder key.
  unfoldable pub new_provider : Option JwtProperties → Result String Provider
  new_provider none = raise "app.jwt.secret is required"
  new_provider (some jwt) = with_secret jwt.expiration_minutes jwt.secret

  -- The settings that the provider takes, with the key that they give.
  pub record IsUsable (o : Option JwtProperties) (key : List ℕ) : Type 0 where
    pub jwt : JwtProperties
    pub given : o ≡ some jwt
    pub secret : String
    pub set : jwt.secret ≡ some secret
    pub not_blank : texts.blank secret ≡ false
    pub decoded : texts.decode secret ≡ ok key
    pub long_enough : 32 ≤ length key
    pub minutes : ℕ
    pub lifetime : jwt.expiration_minutes ≡ pos minutes
    pub positive : 0 < minutes
