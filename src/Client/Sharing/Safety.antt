-- ===== src/Client/Sharing/Safety.antt =====
-- The calls of several threads on one client: what holds in every state.
use mathlib.Core.Path.{subst}
use event_pipeline_extension.Prelude.{
  ℕ, ◌+◌, ◌≤◌, String, ◌≡◌, refl, ◌∙◌, Option, none, some, List, inl, inr, nat_beq, Bool-cases,
}
use event_pipeline_extension.Prelude.Result.{ok}
use event_pipeline_extension.Json.{Json}
use event_pipeline_extension.EventId.{Codec}
use event_pipeline_extension.Client.{Http, Client}
use event_pipeline_extension.Client.Sharing.{
  returned, Call, advance, Shared, move, Reach, begun, moves,
}
use event_pipeline_extension.Client.Sharing.Counts.{
  spare, Counted, IsHeld, Counted-le, advance-Counted, advance-IsHeld,
}
use event_pipeline_extension.Client.Sharing.Issued.{
  IsAnswered, IsSound, CachedIssued, IsSound-note_token, advance-IsSound, advance-CachedIssued,
  advance-base_url,
}

module _ (codec : Codec) (http : Http) (start : Client) where
  -- What is known of a call.
  record IsGood (issued : List Json) (call : Call) : Type 0 where
    counted : Counted codec http start call.logins call.fetches call.place
    sound : IsSound codec http start issued call.event_id call.place

  record IsValid (s : Shared codec http) : Type 0 where
    base_url : s.client.base_url ≡ start.base_url
    held : IsHeld codec http start s.client.token
    cached : CachedIssued codec http start s.issued s.client.token
    calls : (i : ℕ) → IsGood s.issued (s.calls i)

  spare_cases : (cached : Option Json) → IsHeld codec http (record start { token = cached }) cached
  spare_cases none = inl refl
  spare_cases (some token) = inr (token, refl)

  move-IsValid : (i : ℕ) (s : Shared codec http) → IsValid s → IsValid (move codec http i s)
  unfolding move
  move-IsValid i s v =
      let call = s.calls i in
      let next = advance codec http call.event_id call.place s.client s.http_state in
      record {
        base_url =
            advance-base_url codec http start call.event_id call.place s.client s.http_state
            ∙ v.base_url;
        held =
            advance-IsHeld codec http start call.event_id call.place s.client s.http_state v.held;
        cached =
            advance-CachedIssued codec http start s.issued call.event_id call.place s.client
              s.http_state v.cached (v.calls i).sound;
        calls = λ j. elim (Bool-cases (nat_beq i j)) [
          | inl here ↦ rw here (record {
            counted =
                advance-Counted codec http start call.event_id call.place s.client s.http_state
                  call.logins call.fetches v.held (v.calls i).counted;
            sound =
                advance-IsSound codec http start s.issued call.event_id call.place s.client
                  s.http_state v.base_url v.cached (v.calls i).sound;
          })
          | inr other ↦ rw other (record {
            counted = (v.calls j).counted;
            sound =
                IsSound-note_token codec http start s.issued (s.calls j).event_id (s.calls j).place
                  next.0 (v.calls j).sound;
          })
        ];
      }

  Reach-IsValid :
      {h : http.State} {names : ℕ → String} {s : Shared codec http}
      → Reach codec http start h names s
      → IsValid s
  Reach-IsValid begun = record {
    base_url = refl;
    held = spare_cases start.token;
    cached = λ token e. e;
    calls = λ i. record { counted = (refl, refl); sound = tt };
  }
  Reach-IsValid (moves {s} i r) = move-IsValid i s (Reach-IsValid r)

  -- The bound of `get_event` holds for each of several calls on one client: whatever the others do
  -- between its steps and however event-api answers, a call makes at most two logins and two fetches,
  -- and no more than one login if a token was cached at the start.
  pub shared_calls :
      {h : http.State} {names : ℕ → String} {s : Shared codec http}
      → Reach codec http start h names s
      → (i : ℕ) → ((s.calls i).logins ≤ spare start.token + 1) × ((s.calls i).fetches ≤ 2)
  shared_calls {s} r i =
      Counted-le codec http start (s.calls i).logins (s.calls i).fetches (s.calls i).place
        ((Reach-IsValid r).calls i).counted

  -- Whatever the other calls do, a call that returned an event returned the body of an answer of
  -- event-api below 400 to a request for this event, under a token that was cached at the start or
  -- that a login has returned.
  pub shared_answer :
      {h : http.State} {names : ℕ → String} {s : Shared codec http}
      → Reach codec http start h names s
      → (i : ℕ) (event : Json) → (s.calls i).place ≡ returned (ok event)
      → IsAnswered codec http start s.issued (s.calls i).event_id event
  shared_answer {s} r i event at =
      subst (IsSound codec http start s.issued (s.calls i).event_id) at
        ((Reach-IsValid r).calls i).sound
