-- ===== src/Client/Sharing/Counts.antt =====
-- How many requests a call has made at each of its places.
use event_pipeline_extension.Prelude.{
  ℕ, ◌+◌, ◌≤◌, String, ◌≡◌, ◌⊎◌, refl, Bool, true, false, Option, none, some, ◌&&◌, not,
  if◌then◌else◌, arith, inl, inr,
}
use event_pipeline_extension.Prelude.Result.{Result, ok, raise}
use event_pipeline_extension.Json.{Json}
use event_pipeline_extension.EventId.{Codec}
use event_pipeline_extension.Client.{
  Reply, ClientError, Http, Client, do_get, read_event, is_unauthorized,
}
use event_pipeline_extension.Client.Sharing.{
  Place, checking, logging_in, caching, fetching, returned, after_check, after_login, after_fetch,
  advance, is_login, is_fetch,
}

-- The logins that a call needs for a first token: none if one was cached at the start.
abbrev pub spare : Option Json → ℕ
spare none = 1
spare (some token) = 0

module _ (codec : Codec) (http : Http) (start : Client) where
  -- The numbers of the logins and the fetches of a call at a place.
  abbrev pub Counted : ℕ → ℕ → Place → Type 0
  Counted logins fetches checking = (logins ≡ 0) × (fetches ≡ 0)
  Counted logins fetches (logging_in again) =
      if again
      then (logins ≤ spare start.token) × (fetches ≤ 1)
      else (logins + 1 ≤ spare start.token) × (fetches ≡ 0)
  Counted logins fetches (caching again token) =
      if again
      then (logins ≤ spare start.token + 1) × (fetches ≤ 1)
      else (logins ≤ spare start.token) × (fetches ≡ 0)
  Counted logins fetches (fetching again token) =
      if again
      then (logins ≤ spare start.token + 1) × (fetches ≤ 1)
      else (logins ≤ spare start.token) × (fetches ≡ 0)
  Counted logins fetches (returned r) = (logins ≤ spare start.token + 1) × (fetches ≤ 2)

  -- A token that was cached at the start is not dropped.
  abbrev pub IsHeld : Option Json → Type 0
  IsHeld cached = (spare start.token ≡ 1) ⊎ ((token : Json) × (cached ≡ some token))

  check-Counted :
      (cached : Option Json) (logins fetches : ℕ)
      → IsHeld cached
      → (logins ≡ 0) × (fetches ≡ 0)
      → Counted (logins + 0) (fetches + 0) (after_check codec http cached)
  check-Counted (some token) logins fetches held (l, f) = (omega (arith, l), omega (arith, f))
  check-Counted none logins fetches (inl one) (l, f) = (omega (arith, l, one), omega (arith, f))
  check-Counted none logins fetches (inr (token, e)) (l, f) = cc

  login-Counted :
      (again : Bool) (r : Result ClientError Json) (logins fetches : ℕ)
      → Counted logins fetches (logging_in again)
      → Counted (logins + 1) (fetches + 0) (after_login codec http again r)
  login-Counted true (ok token) logins fetches (l, f) = (omega (arith, l), omega (arith, f))
  login-Counted true (raise ex) logins fetches (l, f) = (omega (arith, l), omega (arith, f))
  login-Counted false (ok token) logins fetches (l, f) = (omega (arith, l), omega (arith, f))
  login-Counted false (raise ex) logins fetches (l, f) = (omega (arith, l), omega (arith, f))

  cache-Counted :
      (again : Bool) (token : Json) (logins fetches : ℕ)
      → Counted logins fetches (caching again token)
      → Counted (logins + 0) (fetches + 0) (fetching again token)
  cache-Counted true token logins fetches (l, f) = (omega (arith, l), omega (arith, f))
  cache-Counted false token logins fetches (l, f) = (omega (arith, l), omega (arith, f))

  fetch-Counted :
      (again : Bool) (token : Json) (reply : Reply) (logins fetches : ℕ)
      → Counted logins fetches (fetching again token)
      → Counted (logins + 0) (fetches + 1) (after_fetch codec http again reply)
  fetch-Counted again token reply logins fetches h =
      by_answer again (is_unauthorized codec http reply) h
    where
      by_answer :
          (again refused : Bool)
          → Counted logins fetches (fetching again token)
          → Counted (logins + 0) (fetches + 1) (
              if refused && not again
              then logging_in true
              else returned (read_event codec http reply))
      by_answer true true (l, f) = (omega (arith, l), omega (arith, f))
      by_answer true false (l, f) = (omega (arith, l), omega (arith, f))
      by_answer false true (l, f) = (omega (arith, l), omega (arith, f))
      by_answer false false (l, f) = (omega (arith, l), omega (arith, f))

  pub advance-Counted :
      (event_id : String) (place : Place) (c : Client) (h : http.State) (logins fetches : ℕ)
      → IsHeld c.token
      → Counted logins fetches place
      → Counted
          (logins + is_login codec http place)
          (fetches + is_fetch codec http place)
          (advance codec http event_id place c h).0
  unfolding advance
  advance-Counted event_id checking c h logins fetches held k =
      check-Counted c.token logins fetches held k
  advance-Counted event_id (logging_in again) c h logins fetches held k =
      login-Counted again _ logins fetches k
  advance-Counted event_id (caching again token) c h logins fetches held k =
      cache-Counted again token logins fetches k
  advance-Counted event_id (fetching again token) c h logins fetches held k =
      fetch-Counted again token (do_get codec http event_id token c h).0 logins fetches k
  advance-Counted event_id (returned r) c h logins fetches held (l, f) =
      (omega (arith, l), omega (arith, f))

  pub advance-IsHeld :
      (event_id : String) (place : Place) (c : Client) (h : http.State)
      → IsHeld c.token
      → IsHeld (advance codec http event_id place c h).1.token
  unfolding advance
  advance-IsHeld event_id checking c h held = held
  advance-IsHeld event_id (logging_in again) c h held = held
  advance-IsHeld event_id (caching again token) c h held = inr (token, refl)
  advance-IsHeld event_id (fetching again token) c h held = held
  advance-IsHeld event_id (returned r) c h held = held

  pub Counted-le :
      (logins fetches : ℕ) (place : Place)
      → Counted logins fetches place
      → (logins ≤ spare start.token + 1) × (fetches ≤ 2)
  Counted-le logins fetches checking (l, f) = (omega (arith, l), omega (arith, f))
  Counted-le logins fetches (logging_in true) (l, f) = (omega (arith, l), omega (arith, f))
  Counted-le logins fetches (logging_in false) (l, f) = (omega (arith, l), omega (arith, f))
  Counted-le logins fetches (caching true token) (l, f) = (omega (arith, l), omega (arith, f))
  Counted-le logins fetches (caching false token) (l, f) = (omega (arith, l), omega (arith, f))
  Counted-le logins fetches (fetching true token) (l, f) = (omega (arith, l), omega (arith, f))
  Counted-le logins fetches (fetching false token) (l, f) = (omega (arith, l), omega (arith, f))
  Counted-le logins fetches (returned r) (l, f) = (l, f)
