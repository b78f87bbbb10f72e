-- ===== src/EventApi/Security/Users.antt =====
-- The users of event-api: `userDetailsService` of config/SecurityConfig.java puts those of the settings
-- into the user manager of Spring Security, which is a parameter with its password encoder.
use mathlib.Core.Path.{subst}
use event_pipeline_extension.Prelude.{
  ℕ, String, ◌<>◌, ◌≡◌, refl, ◌∙◌, inl, inr, Bool, true, Option, none, some, List, [], ◌∷◌, IsIn,
  string_eq,
}
use event_pipeline_extension.Prelude.Result.{Result, ok, raise, ◌>>=◌}
use event_pipeline_extension.EventApi.Security.{Principal, Jwt, Logins, login, issued_response}
use event_pipeline_extension.EventApi.Security.Laws.{login-bearer}

-- `AppProperties.User`
pub record User : Type 0 where
  pub username : String
  pub password : String
  pub role : String

-- An account: the encoded password, and the authority of its role.
abbrev pub Account : Type 0
Account = String × String

-- `InMemoryUserDetailsManager` with `BCryptPasswordEncoder`: a new manager, `createUser`, the account
-- of a name, and the `AuthenticationManager` over them.
pub record Manager : Type 1 where
  pub State : Type 0
  pub new : State
  pub create_user : State → String → Account → Result String State
  pub account : State → String → Option Account
  pub encode : String → String
  pub matches : String → String → Bool
  pub authenticate : State → String → String → Option Principal

-- What the service relies on: a created account is there, no name gets a second account, the other
-- accounts stay, a password matches its encoding, and whoever gives the password of an account is
-- authenticated with its authority.
pub record IsLawful (manager : Manager) : Type 0 where
  pub created :
      (s t : manager.State) (username : String) (a : Account)
      → manager.create_user s username a ≡ ok t
      → manager.account t username ≡ some a
  pub kept :
      (s t : manager.State) (username : String) (a : Account) (name : String) (b : Account)
      → manager.create_user s username a ≡ ok t
      → manager.account s name ≡ some b
      → manager.account t name ≡ some b
  pub matching : (password : String) → manager.matches password (manager.encode password) ≡ true
  pub authenticated :
      (s : manager.State) (username password : String) (a : Account)
      → manager.account s username ≡ some a
      → manager.matches password a.0 ≡ true
      → manager.authenticate s username password
        ≡ some (record { username = username; authorities = a.1 ∷ [] })

module _ (manager : Manager) where
  -- `roles(...)` gives the authority of a role.
  abbrev pub account_of : User → Account
  account_of u = (manager.encode u.password, "ROLE_" <> u.role)

  abbrev pub create_all : List User → manager.State → Result String manager.State
  create_all [] s = ok s
  create_all (u ∷ users) s =
      manager.create_user s u.username (account_of u) >>= (λ t. create_all users t)

  -- `userDetailsService`; the users are `null` where the settings have none.
  unfoldable pub seed : Option (List User) → Result String manager.State
  seed none = raise "app.users must contain at least one user"
  seed (some []) = raise "app.users must contain at least one user"
  seed (some (u ∷ users)) = create_all (u ∷ users) manager.new

  module _ (lawful : IsLawful manager) where
    first_created :
        (r : Result String manager.State) (users : List User) (t : manager.State)
        → (r >>= (λ s. create_all users s)) ≡ ok t
        → (s : manager.State) × (r ≡ ok s) × (create_all users s ≡ ok t)
    first_created (ok s) users t e = (s, refl, e)
    first_created (raise message) users t e = cc

    account-kept :
        (users : List User) (s t : manager.State) (name : String) (a : Account)
        → create_all users s ≡ ok t
        → manager.account s name ≡ some a
        → manager.account t name ≡ some a
    account-kept [] s t name a e h =
        let same : s ≡ t = cc in subst (λ x. manager.account x name ≡ some a) same h
    account-kept (u ∷ users) s t name a e h =
        let (next, made, rest) =
          first_created (manager.create_user s u.username (account_of u)) users t e in
        account-kept users next t name a rest
          (lawful.kept s next u.username (account_of u) name a made h)

    account-created :
        (users : List User) (s t : manager.State) (u : User)
        → create_all users s ≡ ok t
        → IsIn u users
        → manager.account t u.username ≡ some (account_of u)
    account-created [] s t u e i = absurd (i tt)
    account-created (v ∷ users) s t u e i =
        let (next, made, rest) =
          first_created (manager.create_user s v.username (account_of v)) users t e in
        elim i [
          | inl same ↦ rw same (
              account-kept users next t v.username (account_of v) rest
                (lawful.created s next v.username (account_of v) made))
          | inr later ↦ account-created users next t u rest later
        ]

    seeded :
        (users : List User) (t : manager.State)
        → seed (some users) ≡ ok t
        → create_all users manager.new ≡ ok t
    unfolding seed
    seeded [] t e = cc
    seeded (u ∷ users) t e = e

    -- Each user of the settings can log in: if the manager is lawful, the seeding returned, and the
    -- request is valid, a login with the user's name and password gives a token of the user and the role.
    pub login-seed :
        (jwt : Jwt) (logins : Logins) (users : List User) (t : manager.State) (u : User) (now : ℕ)
        → seed (some users) ≡ ok t
        → IsIn u users
        → ((username password : String)
            → logins.authenticate username password ≡ manager.authenticate t username password)
        → logins.violation u.username u.password ≡ none
        → login jwt logins u.username u.password now
          ≡ ok (issued_response jwt logins u.username u.role now)
    login-seed jwt logins users t u now e i same valid =
        let there = account-created users manager.new t u (seeded users t e) i in
        login-bearer jwt logins u.username u.password u.username u.role now valid (
          same u.username u.password
          ∙ lawful.authenticated t u.username u.password (account_of u) there
              (lawful.matching u.password))
