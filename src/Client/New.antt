-- ===== src/Client/New.antt =====
-- `EventApiClient.__init__` of event_processor/event_api_client.py: the base URL loses its trailing
-- slashes, and no token is cached.
use Prim.Native.Char.{Char, code}
use Prim.Native.String.append
use event_pipeline_extension.Prelude.{
  String, ◌<>◌, ◌≡◌, refl, ap, ◌∙◌, Bool, true, false, ◌&&◌, none, nat_beq, if◌then◌else◌,
  Bool-cases, inl, inr,
}
use event_pipeline_extension.Client.{Client}

abbrev is_empty : String → Bool
is_empty String.[] = true
is_empty (String.◌∷◌ c s) = false

-- One character in front of what is left of the rest.
abbrev keep_unless_slash : Char → String → String
keep_unless_slash c rest =
    if is_empty rest && nat_beq (code c) b'/' then String.[] else String.◌∷◌ c rest

-- `base_url.rstrip("/")`
unfoldable pub rstrip_slash : String → String
rstrip_slash String.[] = String.[]
rstrip_slash (String.◌∷◌ c s) = keep_unless_slash c (rstrip_slash s)

unfoldable pub new : String → String → String → Client
unfolding rstrip_slash
new base_url username password = record {
  base_url = rstrip_slash base_url;
  username = username;
  password = password;
  token = none;
}

cons-append : (c : Char) (s t : String) → (String.◌∷◌ c s) <> t ≡ String.◌∷◌ c (s <> t)
cons-append c s t = λ i. append.cons c s t i

rstrip_slash-append : (s : String) → rstrip_slash (s <> "/") ≡ rstrip_slash s
unfolding rstrip_slash
rstrip_slash-append String.[] = refl
rstrip_slash-append (String.◌∷◌ c s) =
    ap rstrip_slash (cons-append c s "/") ∙ ap (keep_unless_slash c) (rstrip_slash-append s)

-- What stays behind a strip.
rstrip_slash_kept : (s : String) → rstrip_slash (rstrip_slash s) ≡ rstrip_slash s
unfolding rstrip_slash
rstrip_slash_kept String.[] = refl
rstrip_slash_kept (String.◌∷◌ c s) =
    elim (Bool-cases (is_empty (rstrip_slash s) && nat_beq (code c) b'/')) [
      | inl gone ↦ rw gone refl
      | inr stays ↦ rw stays (ap (keep_unless_slash c) (rstrip_slash_kept s) ∙ rw stays refl)
    ]

-- Slashes at the end of the base URL do not matter: a client made with one more is the same client,
-- and the base URL of a client is one that a second strip leaves as it is.
pub new_slash :
    (base_url username password : String)
    → (new (base_url <> "/") username password ≡ new base_url username password)
      × (rstrip_slash (new base_url username password).base_url
          ≡ (new base_url username password).base_url)
unfolding new
new_slash base_url username password = (
  ap (λ u. record { base_url = u; username = username; password = password; token = none })
      (rstrip_slash-append base_url),
  rstrip_slash_kept base_url,
)
