-- ===== src/EventApi/Security/Laws.antt =====
-- What the rules come to, and that an issued token opens what its role may do.
use event_pipeline_extension.Prelude.{
  ℕ, ◌+◌, ◌≤◌, String, ◌<>◌, ◌≡◌, ◌⊎◌, ◌↔◌, refl, sym, ap, ◌∙◌, true, none, some, List, [], ◌∷◌,
  string_eq, eq_law, nat_beq_self, arith, Bool-cases, inl, inr,
}
use Prim.Native.Char.{code}
use Prim.Native.String.append
use event_pipeline_extension.EventApi.Security.{
  Method, get, post, put, patch, delete, head, options, trace, Principal, permitted,
  unauthenticated, contains, path_eq, authorize, strip_prefix, Jwt, IsVerifying, authenticate,
  Logins, first_role, login, after_role, issued_response,
}
use event_pipeline_extension.Prelude.Result.{ok}

-- A request that needs no token.
abbrev pub IsOpen : Method → List String → Type 0
IsOpen method path = (method ≡ post) × ((path ≡ "events" ∷ []) ⊎ (path ≡ "auth" ∷ "login" ∷ []))

pub strip_prefix-append : (p s : String) → strip_prefix p (p <> s) ≡ some s
unfolding strip_prefix
strip_prefix-append String.[] s = ap some (append.nil s)
strip_prefix-append (String.◌∷◌ c p) s =
    ap (strip_prefix (String.◌∷◌ c p)) (append.cons c p s)
    ∙ rw (nat_beq_self (code c)) (strip_prefix-append p s)

-- The role that the principal has, among two.
abbrev pub HasRole : String → Principal → Type 0
HasRole role p = contains ("ROLE_" <> role) p.authorities ≡ true

authorize_delete :
    (rest : List String) (p : Principal)
    → (authorize delete ("events" ∷ rest) (some p) ≡ permitted) ↔ HasRole "ADMIN" p
unfolding authorize
authorize_delete rest p = ground arith

authorize_events :
    (rest : List String) (p : Principal)
    → (authorize get ("events" ∷ rest) (some p) ≡ permitted)
      ↔ (HasRole "USER" p ⊎ HasRole "ADMIN" p)
unfolding authorize
authorize_events [] p = ground arith
authorize_events (a ∷ rest) p = ground arith

authorize_stats :
    (rest : List String) (p : Principal)
    → (authorize get ("stats" ∷ rest) (some p) ≡ permitted) ↔ (HasRole "USER" p ⊎ HasRole "ADMIN" p)
unfolding authorize
authorize_stats [] p = ground arith
authorize_stats (a ∷ rest) p = ground arith

path_eq_iff : (p q : List String) → (path_eq p q ≡ true) ↔ (p ≡ q)
path_eq_iff [] [] = (λ e. refl, λ e. refl)
path_eq_iff [] (b ∷ q) = (λ e. cc, λ e. cc)
path_eq_iff (a ∷ p) [] = (λ e. cc, λ e. cc)
path_eq_iff (a ∷ p) (b ∷ q) = ground (arith, eq_law a b, path_eq_iff p q)

post-IsOpen : (path : List String) → (authorize post path none ≡ permitted) ↔ IsOpen post path
unfolding authorize
post-IsOpen path =
    let events = path_eq_iff ("events" ∷ []) path in
    let login = path_eq_iff ("auth" ∷ "login" ∷ []) path in
    elim (Bool-cases (path_eq ("events" ∷ []) path)) [
      | inl is_events ↦ (λ e. (refl, inl (sym (events.0 is_events))), λ h. rw is_events refl)
      | inr not_events ↦ elim (Bool-cases (path_eq ("auth" ∷ "login" ∷ []) path)) [
        | inl is_login ↦
            (λ e. (refl, inr (sym (login.0 is_login))), λ h. rw (not_events, is_login) refl)
        | inr not_login ↦ (
          λ e. cc (rw (not_events, not_login) at e),
          λ h. elim h.1 [
            | inl same ↦ cc (events.1 (sym same), not_events)
            | inr same ↦ cc (login.1 (sym same), not_login)
          ],
        )
      ]
    ]

closed_get : (path : List String) → authorize get path none ≡ unauthenticated
unfolding authorize
closed_get [] = refl
closed_get (a ∷ []) = ground arith
closed_get (a ∷ b ∷ rest) = ground arith

pub closed_delete : (path : List String) → authorize delete path none ≡ unauthenticated
unfolding authorize
closed_delete [] = refl
closed_delete (a ∷ rest) = ground arith

-- Without a principal the only requests that are permitted are the two open ones.
pub authorize-IsOpen :
    (method : Method) (path : List String)
    → (authorize method path none ≡ permitted) ↔ IsOpen method path
authorize-IsOpen post path = post-IsOpen path
authorize-IsOpen get path = (λ e. cc (closed_get path), λ h. cc (h.0))
authorize-IsOpen delete path = (λ e. cc (closed_delete path), λ h. cc (h.0))
authorize-IsOpen put path = unfold authorize in (λ e. cc, λ h. cc (h.0))
authorize-IsOpen patch path = unfold authorize in (λ e. cc, λ h. cc (h.0))
authorize-IsOpen head path = unfold authorize in (λ e. cc, λ h. cc (h.0))
authorize-IsOpen options path = unfold authorize in (λ e. cc, λ h. cc (h.0))
authorize-IsOpen trace path = unfold authorize in (λ e. cc, λ h. cc (h.0))

-- Who may do what: a delete of events is for the role ADMIN, a read of events or statistics is for the
-- roles USER and ADMIN.
pub authorize_roles :
    (rest : List String) (p : Principal)
    → ((authorize delete ("events" ∷ rest) (some p) ≡ permitted) ↔ HasRole "ADMIN" p)
      × ((authorize get ("events" ∷ rest) (some p) ≡ permitted)
          ↔ (HasRole "USER" p ⊎ HasRole "ADMIN" p))
      × ((authorize get ("stats" ∷ rest) (some p) ≡ permitted)
          ↔ (HasRole "USER" p ⊎ HasRole "ADMIN" p))
authorize_roles rest p = (authorize_delete rest p, authorize_events rest p, authorize_stats rest p)

-- The principal of a token.
abbrev pub bearer : String → String → Principal
bearer username role = record { username = username; authorities = ("ROLE_" <> role) ∷ [] }

-- An issued token names its user and its role until it expires, and nobody afterwards.
pub authenticate-sign :
    (jwt : Jwt) (username role : String)
    → IsVerifying jwt username role
    → (issued expires now : ℕ)
    → (now + 1000 ≤ expires
        → authenticate jwt (some ("Bearer " <> jwt.sign username role issued expires)) now
          ≡ some (bearer username role))
      × (expires + 1000 ≤ now
          → authenticate jwt (some ("Bearer " <> jwt.sign username role issued expires)) now ≡ none)
unfolding authenticate
authenticate-sign jwt username role verifying issued expires now =
    let stripped = strip_prefix-append "Bearer " (jwt.sign username role issued expires) in
    (
      λ early. rw (stripped, verifying.accepted issued expires now early) refl,
      λ late. rw (stripped, verifying.expired issued expires now late) refl,
    )

pub authorize-bearer :
    (rest : List String) (username role : String)
    → (role ≡ "USER") ⊎ (role ≡ "ADMIN")
    → authorize get ("events" ∷ rest) (some (bearer username role)) ≡ permitted
authorize-bearer rest username role (inl user) = rw user ((authorize_events rest _).1 (inl refl))
authorize-bearer rest username role (inr admin) = rw admin ((authorize_events rest _).1 (inr refl))

first_role-bearer : (role : String) → first_role (("ROLE_" <> role) ∷ []) ≡ some role
first_role-bearer role = rw (strip_prefix-append "ROLE_" role, first_role) refl

-- A login of a user with one role issues a token for it.
pub login-bearer :
    (jwt : Jwt) (logins : Logins) (name password username role : String) (now : ℕ)
    → logins.violation name password ≡ none
    → logins.authenticate name password ≡ some (bearer username role)
    → login jwt logins name password now ≡ ok (issued_response jwt logins username role now)
unfolding login
login-bearer jwt logins name password username role now valid known =
    rw (valid, known)
      (ap (after_role jwt logins now (bearer username role)) (first_role-bearer role))
