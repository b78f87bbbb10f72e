-- ===== src/EventApi/Security.antt =====
-- config/SecurityConfig.java, security/JwtAuthenticationFilter.java, security/JwtTokenProvider.java and
-- auth/AuthController.java: who may make which request, and how a client gets its token.
pub mod Laws
pub mod Provider
pub mod Users
use event_pipeline_extension.Prelude.{
  ℕ, ◌+◌, ◌≤◌, String, ◌<>◌, ◌≡◌, Bool, true, false, ◌&&◌, ◌||◌, Option, none, some, List, [], ◌∷◌,
  ◌==◌, string_eq, nat_beq, if◌then◌else◌,
}
use Prim.Native.Char.{Char, code}
use event_pipeline_extension.Prelude.Result.{Result, ok, raise, ◌>>=◌}
use event_pipeline_extension.Json.{Json, dict, field, end, str}
use event_pipeline_extension.EventApi.{
  ApiException, invalid_credentials, validation, unexpected, Response, json_response, error_body,
  handle,
}

pub data Method : Type 0 where
  get post put patch delete head options trace : Method

abbrev pub method_eq : Method → Method → Bool
method_eq get get = true
method_eq post post = true
method_eq put put = true
method_eq patch patch = true
method_eq delete delete = true
method_eq head head = true
method_eq options options = true
method_eq trace trace = true
method_eq _ _ = false

-- A pattern of `requestMatchers`: a path, or a path with all that is below it (`/**`). A path is the
-- list of its segments.
pub data Pattern : Type 0 where
  exactly below : List String → Pattern

abbrev pub path_eq : List String → List String → Bool
path_eq [] [] = true
path_eq (a ∷ p) (b ∷ q) = (a == b) && path_eq p q
path_eq _ _ = false

abbrev pub starts_with : List String → List String → Bool
starts_with [] path = true
starts_with (a ∷ p) (b ∷ q) = (a == b) && starts_with p q
starts_with (a ∷ p) [] = false

abbrev pub matches : Pattern → List String → Bool
matches (exactly p) path = path_eq p path
matches (below p) path = starts_with p path

pub data Access : Type 0 where
  permit_all authenticated : Access
  has_any_role : List String → Access

pub record Rule : Type 0 where
  pub method : Method
  pub patterns : List Pattern
  pub access : Access

-- The rules of `authorizeHttpRequests` in their order, up to `anyRequest`.
abbrev pub rules : List Rule
rules =
    record { method = post; patterns = exactly ("events" ∷ []) ∷ []; access = permit_all }
    ∷ record { method = post; patterns = exactly ("auth" ∷ "login" ∷ []) ∷ []; access = permit_all }
    ∷ record {
      method = delete;
      patterns = below ("events" ∷ []) ∷ [];
      access = has_any_role ("ADMIN" ∷ []);
    }
    ∷ record {
      method = get;
      patterns = exactly ("events" ∷ []) ∷ below ("events" ∷ []) ∷ [];
      access = has_any_role ("USER" ∷ "ADMIN" ∷ []);
    }
    ∷ record {
      method = get;
      patterns = exactly ("stats" ∷ []) ∷ below ("stats" ∷ []) ∷ [];
      access = has_any_role ("USER" ∷ "ADMIN" ∷ []);
    }
    ∷ []

-- The principal of a request, if the filter has set one.
pub record Principal : Type 0 where
  pub username : String
  pub authorities : List String

pub data Decision : Type 0 where
  permitted unauthenticated denied : Decision

abbrev pub contains : String → List String → Bool
contains a [] = false
contains a (b ∷ l) = (a == b) || contains a l

abbrev pub has_one : List String → List String → Bool
has_one [] authorities = false
has_one (role ∷ roles) authorities =
    contains ("ROLE_" <> role) authorities || has_one roles authorities

-- A principal without the role is denied, a request without a principal is to authenticate first.
abbrev pub decide : Access → Option Principal → Decision
decide permit_all principal = permitted
decide authenticated none = unauthenticated
decide authenticated (some p) = permitted
decide (has_any_role roles) none = unauthenticated
decide (has_any_role roles) (some p) = if has_one roles p.authorities then permitted else denied

abbrev pub matches_one : List Pattern → List String → Bool
matches_one [] path = false
matches_one (p ∷ patterns) path = matches p path || matches_one patterns path

-- The access of the first rule that matches; `anyRequest().authenticated()` if none does.
abbrev pub access_of : List Rule → Method → List String → Access
access_of [] method path = authenticated
access_of (r ∷ rest) method path =
    let others = access_of rest method path in
    if method_eq r.method method && matches_one r.patterns path then r.access else others

unfoldable pub authorize : Method → List String → Option Principal → Decision
authorize method path principal = decide (access_of rules method path) principal

-- The responses of `JwtAuthenticationEntryPoint` and `JwtAccessDeniedHandler`.
abbrev pub on_decision : String → Decision → Response → Response
on_decision timestamp permitted response = response
on_decision timestamp unauthenticated response =
    error_body timestamp 401 "Unauthorized" "Authentication required"
on_decision timestamp denied response =
    error_body timestamp 403 "Forbidden" "Insufficient role for this operation"

-- What is left of a string after a prefix.
unfoldable pub strip_prefix : String → String → Option String
strip_prefix String.[] s = some s
strip_prefix (String.◌∷◌ c p) String.[] = none
strip_prefix (String.◌∷◌ c p) (String.◌∷◌ d s) =
    let rest = strip_prefix p s in if nat_beq (code c) (code d) then rest else none

pub record Parsed : Type 0 where
  pub username : Option String
  pub role : Option String

-- The JWT library with the signing key: a signed token of a subject, a role, and the times of issue
-- and expiry, and what it verifies of a token at a time, `none` for a `JwtException`.
pub record Jwt : Type 0 where
  pub sign : String → String → ℕ → ℕ → String
  pub verify : String → ℕ → Option Parsed

-- What the provider relies on for the tokens of a subject and a role. A token holds its times in
-- seconds.
pub record IsVerifying (jwt : Jwt) (username role : String) : Type 0 where
  pub accepted :
      (issued expires now : ℕ)
      → now + 1000 ≤ expires
      → jwt.verify (jwt.sign username role issued expires) now
        ≡ some (record { username = some username; role = some role })
  pub expired :
      (issued expires now : ℕ)
      → expires + 1000 ≤ now
      → jwt.verify (jwt.sign username role issued expires) now ≡ none

-- Both claims must be there.
abbrev pub principal_from : Option String → Option String → Option Principal
principal_from (some username) (some role) =
    some (record { username = username; authorities = ("ROLE_" <> role) ∷ [] })
principal_from _ _ = none

abbrev pub principal_of : Option Parsed → Option Principal
principal_of none = none
principal_of (some p) = principal_from p.username p.role

module _ (jwt : Jwt) where
  abbrev pub authenticate_token : ℕ → Option String → Option Principal
  authenticate_token now none = none
  authenticate_token now (some token) = principal_of (jwt.verify token now)

  -- `doFilterInternal`: the principal of the header `Authorization`, if there is one. The server drops
  -- spaces at the end of a header, so that no token is empty.
  unfoldable pub authenticate : Option String → ℕ → Option Principal
  unfolding strip_prefix
  authenticate none now = none
  authenticate (some header) now = authenticate_token now (strip_prefix "Bearer " header)

-- The `AuthenticationManager` over the seeded users, the text of an instant, and the message of the
-- first violation of `LoginRequest`, whose fields are `@NotBlank`.
pub record Logins : Type 0 where
  pub authenticate : String → String → Option Principal
  pub instant_text : ℕ → String
  pub violation : String → String → Option String
  pub expiration_ms : ℕ

-- The first authority with the prefix, without it.
abbrev pub first_role : List String → Option String
first_role [] = none
first_role (a ∷ rest) =
    let later = first_role rest in
    elim (strip_prefix "ROLE_" a) [ some role ↦ some role | none ↦ later ]

module _ (jwt : Jwt) (logins : Logins) where
  -- `issue`, and the response with its token and its expiry.
  abbrev pub issued_response : String → String → ℕ → Json
  issued_response username role now =
      let expires = now + logins.expiration_ms in
      dict (
        field "token" (str (jwt.sign username role now expires))
          (field "expiresAt" (str (logins.instant_text expires)) end))

  abbrev pub after_role : ℕ → Principal → Option String → Result ApiException Json
  after_role now p none =
      raise (unexpected ("Authenticated principal has no ROLE_* authority: " <> p.username))
  after_role now p (some role) = ok (issued_response p.username role now)

  abbrev pub after_authenticate : ℕ → Option Principal → Result ApiException Json
  after_authenticate now none = raise invalid_credentials
  after_authenticate now (some p) = after_role now p (first_role p.authorities)

  abbrev pub after_validation : String → String → ℕ → Option String → Result ApiException Json
  after_validation username password now (some message) = raise (validation message)
  after_validation username password now none =
      after_authenticate now (logins.authenticate username password)

  -- `login`, with the validation of its request.
  unfoldable pub login : String → String → ℕ → Result ApiException Json
  unfolding strip_prefix
  login username password now =
      after_validation username password now (logins.violation username password)

  abbrev pub respond_login : String → Result ApiException Json → Response
  respond_login timestamp (ok v) = json_response 200 v
  respond_login timestamp (raise ex) = handle timestamp ex
