-- ===== src/EventApi/Security/Provider/Laws.antt =====
-- Which settings the provider takes, and how long its tokens last.
use event_pipeline_extension.Prelude.{
  ℕ, zero, suc, ◌*◌, ◌%◌, ◌≤◌, ◌<◌, String, ◌≡◌, ◌↔◌, refl, sym, ap, ◌∙◌, true, false, Option, none,
  some, List, length, ltb, arith, inl, inr, Bool-cases,
}
use event_pipeline_extension.Prelude.Result.{Result, ok, raise}
use event_pipeline_extension.Json.{ℤ, pos, negsuc}
use event_pipeline_extension.EventApi.Security.Provider.{
  JwtProperties, Texts, Provider, to_ms, with_minutes, with_key, with_secret, new_provider,
  IsUsable,
}

-- A provider with these settings.
record Made (minutes : ℤ) (key : List ℕ) (p : Provider) : Type 0 where
  n : ℕ
  lifetime : minutes ≡ pos n
  positive : 0 < n
  signing : key ≡ p.signing_key
  lasting : p.expiration_ms ≡ to_ms n

minutes-Made :
    (key : List ℕ) (minutes : ℤ) (p : Provider)
    → with_minutes key minutes ≡ ok p
    → Made minutes key p
minutes-Made key (pos (suc n)) p e = record {
  n = suc n;
  lifetime = refl;
  positive = omega arith;
  signing = cc;
  lasting = cc;
}
minutes-Made key (pos zero) p e = cc
minutes-Made key (negsuc n) p e = cc

key-Made :
    (key : List ℕ) (minutes : ℤ) (p : Provider)
    → with_key minutes (ok key) ≡ ok p
    → (32 ≤ length key) × Made minutes key p
key-Made key minutes p e = elim (Bool-cases (ltb (length key) 32)) [
  | inl short ↦ cc (rw short at e)
  | inr long ↦ (ground arith, minutes-Made key minutes p (rw long at e))
]

module _ (texts : Texts) where
  decoded_key :
      (jwt : JwtProperties) (secret : String) (r : Result String (List ℕ)) (p : Provider)
      → jwt.secret ≡ some secret
      → texts.blank secret ≡ false
      → texts.decode secret ≡ r
      → with_key jwt.expiration_minutes r ≡ ok p
      → (u : IsUsable texts (some jwt) p.signing_key) × (p.expiration_ms ≡ to_ms u.minutes)
  decoded_key jwt secret (raise m) p set full decoded e = cc
  decoded_key jwt secret (ok key) p set full decoded e =
      let (enough, made) = key-Made key jwt.expiration_minutes p e in
      (
        record {
          jwt = jwt;
          given = refl;
          secret = secret;
          set = set;
          not_blank = full;
          decoded = decoded ∙ ap ok made.signing;
          long_enough = rw (sym made.signing) enough;
          minutes = made.n;
          lifetime = made.lifetime;
          positive = made.positive;
        },
        made.lasting,
      )

  secret_given :
      (jwt : JwtProperties) (o : Option String) (p : Provider)
      → jwt.secret ≡ o
      → with_secret texts jwt.expiration_minutes o ≡ ok p
      → (u : IsUsable texts (some jwt) p.signing_key) × (p.expiration_ms ≡ to_ms u.minutes)
  secret_given jwt none p set e = cc
  secret_given jwt (some secret) p set e = elim (Bool-cases (texts.blank secret)) [
    | inl blank ↦ cc (rw blank at e)
    | inr full ↦ decoded_key jwt secret (texts.decode secret) p set full refl (rw full at e)
  ]

  provider_settings :
      (o : Option JwtProperties) (p : Provider)
      → new_provider texts o ≡ ok p
      → (u : IsUsable texts o p.signing_key) × (p.expiration_ms ≡ to_ms u.minutes)
  unfolding new_provider
  provider_settings none p e = cc
  provider_settings (some jwt) p e = secret_given jwt jwt.secret p refl e

  with_minutes_positive :
      (key : List ℕ) (n : ℕ)
      → 0 < n
      → with_minutes key (pos n) ≡ ok (record { signing_key = key; expiration_ms = to_ms n })
  with_minutes_positive key zero positive = absurd (omega arith)
  with_minutes_positive key (suc n) positive = refl

  made_of :
      (o : Option JwtProperties) (key : List ℕ) (u : IsUsable texts o key)
      → new_provider texts o ≡ ok (record { signing_key = key; expiration_ms = to_ms u.minutes })
  unfolding new_provider
  made_of o key u =
      let long : ltb (length key) 32 ≡ false = ground (arith, u.long_enough) in
      rw (u.given, u.set, u.not_blank, u.decoded, long, u.lifetime)
        (with_minutes_positive key u.minutes u.positive)

  -- A provider is made exactly of a secret that is not blank and decodes to a key of at least 32 bytes
  -- and of a positive number of minutes; it has this key, and the minutes in milliseconds, which wrap
  -- around at 64 bits.
  pub new_provider-IsUsable :
      (o : Option JwtProperties) (p : Provider)
      → (new_provider texts o ≡ ok p)
        ↔ ((u : IsUsable texts o p.signing_key) × (p.expiration_ms ≡ to_ms u.minutes))
  new_provider-IsUsable o p = (
    λ e. provider_settings o p e,
    λ (u, lasting). made_of o p.signing_key u ∙ rw (sym lasting) refl,
  )

-- Up to this number of minutes nothing wraps around.
pub to_ms_lem : (n : ℕ) → n ≤ 153722867280912 → to_ms n ≡ pos (n * 60000)
to_ms_lem n bound =
    let small : (n * 60000) % 18446744073709551616 ≡ n * 60000 = omega arith in
    let positive : ltb (n * 60000) 9223372036854775808 ≡ true = ground arith in
    rw (small, positive) refl
