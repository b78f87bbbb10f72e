-- ===== src/Client/Sharing/Ends.antt =====
-- A call comes to its end, whatever the other calls do between its steps.
use event_pipeline_extension.Prelude.{
  ℕ, ◌-◌, ◌≤◌, String, ◌≡◌, refl, List, [], ◌∷◌, if◌then◌else◌, arith, length,
}
use event_pipeline_extension.Prelude.Result.{Result}
use event_pipeline_extension.Json.{Json}
use event_pipeline_extension.EventId.{Codec}
use event_pipeline_extension.Client.{ClientError, Http, Client}
use event_pipeline_extension.Client.Sharing.{
  Place, checking, logging_in, caching, fetching, returned, advance,
}

module _ (codec : Codec) (http : Http) where
  -- The steps that a place is away from the end, at most.
  abbrev remaining : Place → ℕ
  remaining checking = 7
  remaining (logging_in again) = if again then 3 else 6
  remaining (caching again token) = if again then 2 else 5
  remaining (fetching again token) = if again then 1 else 4
  remaining (returned r) = 0

  remaining_falls :
      (event_id : String) (place : Place) (c : Client) (h : http.State)
      → remaining (advance codec http event_id place c h).0 ≤ remaining place - 1
  unfolding advance
  remaining_falls event_id checking c h = ground arith
  remaining_falls event_id (logging_in again) c h = ground arith
  remaining_falls event_id (caching again token) c h = ground arith
  remaining_falls event_id (fetching again token) c h = ground arith
  remaining_falls event_id (returned r) c h = omega arith

  -- The place of a call that takes one step from each of these states of what is shared: between two
  -- of its steps the other calls may have done anything.
  unfoldable pub after_states : String → Place → List (Client × http.State) → Place
  unfolding advance
  after_states event_id place [] = place
  after_states event_id place ((c, h) ∷ states) =
      after_states event_id (advance codec http event_id place c h).0 states

  after_states_falls :
      (event_id : String) (place : Place) (states : List (Client × http.State))
      → remaining (after_states event_id place states) ≤ remaining place - length states
  unfolding after_states
  after_states_falls event_id place [] = omega arith
  after_states_falls event_id place ((c, h) ∷ states) =
      let next = (advance codec http event_id place c h).0 in
      omega (arith, after_states_falls event_id next states, remaining_falls event_id place c h)

  remaining-zero :
      (place : Place) → remaining place ≡ 0 → (r : Result ClientError Json) × (place ≡ returned r)
  remaining-zero checking e = cc
  remaining-zero (logging_in again) e = absurd (ground arith)
  remaining-zero (caching again token) e = absurd (ground arith)
  remaining-zero (fetching again token) e = absurd (ground arith)
  remaining-zero (returned r) e = (r, refl)

  -- No call waits for another: after seven steps of its own a call has returned, in whatever states
  -- the other calls have left what is shared.
  pub call_returns :
      (event_id : String) (states : List (Client × http.State))
      → 7 ≤ length states
      → (r : Result ClientError Json) × (after_states event_id checking states ≡ returned r)
  call_returns event_id states le =
      remaining-zero (after_states event_id checking states)
        (omega (arith, le, after_states_falls event_id checking states))
