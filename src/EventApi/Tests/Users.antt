-- ===== src/EventApi/Tests/Users.antt =====
-- A user manager in memory, and the login of a user of the settings.
use event_pipeline_extension.Prelude.{
  String, ◌≡◌, refl, sym, ap, ◌∙◌, inl, inr, true, Bool-cases, Option, none, some, [], ◌∷◌, ◌==◌,
  string_eq, eq_law, eq_self, if◌then◌else◌,
}
use event_pipeline_extension.Prelude.Result.{Result, ok, raise}
use event_pipeline_extension.EventApi.Security.{Principal, Logins, login, issued_response}
use event_pipeline_extension.EventApi.Security.Users.{
  User, Account, Manager, IsLawful, seed, login-seed,
}
use event_pipeline_extension.EventApi.Tests.{jwt}

abbrev Accounts : Type 0
Accounts = String → Option Account

abbrev add_account : String → Account → Accounts → Option Account → Result String Accounts
add_account username a accounts (some b) = raise "user should not exist"
add_account username a accounts none =
    ok (λ name. if username == name then some a else accounts name)

abbrev check_account : String → String → Option Account → Option Principal
check_account username password none = none
check_account username password (some (encoded, authority)) =
    if encoded == password
    then some (record { username = username; authorities = authority ∷ [] })
    else none

abbrev manager : Manager
manager = record {
  State = Accounts;
  new = λ name. none;
  create_user = λ s username a. add_account username a s (s username);
  account = λ s name. s name;
  encode = λ password. password;
  matches = λ password encoded. encoded == password;
  authenticate = λ s username password. check_account username password (s username);
}

add_account-created :
    (username : String) (a : Account) (s t : Accounts) (o : Option Account)
    → add_account username a s o ≡ ok t
    → t username ≡ some a
add_account-created username a s t none e =
    let same : (λ name. if username == name then some a else s name) ≡ t = cc in
    ap (λ f. f username) (sym same) ∙ rw (eq_self username) refl
add_account-created username a s t (some b) e = cc

add_account-kept :
    (username : String) (a : Account) (s t : Accounts) (o : Option Account) (name : String)
    (b : Account)
    → add_account username a s o ≡ ok t
    → s username ≡ o
    → s name ≡ some b
    → t name ≡ some b
add_account-kept username a s t none name b e free h =
    let same : (λ name. if username == name then some a else s name) ≡ t = cc in
    ap (λ f. f name) (sym same) ∙ elim (Bool-cases (username == name)) [
      | inl here ↦
          let i : username ≡ name = (eq_law username name).0 here in
          let free' : s name ≡ none = rw (← i) free in cc
      | inr other ↦ rw other h
    ]
add_account-kept username a s t (some c) name b e free h = cc

check_account-matching :
    (username password : String) (a : Account) (o : Option Account)
    → o ≡ some a
    → (a.0 == password) ≡ true
    → check_account username password o
      ≡ some (record { username = username; authorities = a.1 ∷ [] })
check_account-matching username password a o there good = rw (there, good) refl

manager-IsLawful : IsLawful manager
manager-IsLawful = record {
  created = λ s t username a e. add_account-created username a s t (s username) e;
  kept = λ s t username a name b e h. add_account-kept username a s t (s username) name b e refl h;
  matching = λ password. eq_self password;
  authenticated = λ s username password a there good.
      check_account-matching username password a (s username) there good;
}

abbrev alice : User
alice = record { username = "alice"; password = "secret"; role = "USER" }

abbrev accounts : Accounts
accounts = λ name. if "alice" == name then some ("secret", "ROLE_USER") else none

abbrev logins : Logins
logins = record {
  authenticate = λ username password. manager.authenticate accounts username password;
  instant_text = λ n. "1970-01-01T00:00:01Z";
  violation = λ username password. none;
  expiration_ms = 1000;
}

alice_logs_in :
    login jwt logins "alice" "secret" 0 ≡ ok (issued_response jwt logins "alice" "USER" 0)
unfolding seed
alice_logs_in =
    login-seed manager manager-IsLawful jwt logins (alice ∷ []) accounts alice 0 refl (inl refl)
      (λ username password. refl) refl
