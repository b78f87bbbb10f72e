-- ===== src/Client/Sharing/Issued.antt =====
-- Where the tokens of the calls come from, and what the returned events are.
use mathlib.Core.Path.{subst}
use event_pipeline_extension.Prelude.{
  ℕ, ◌<◌, String, ◌<>◌, ◌≡◌, ◌⊎◌, refl, sym, ap, ◌∙◌, Bool, true, false, Option, none, some, List,
  [], ◌∷◌, ◌&&◌, not, if◌then◌else◌, inl, inr,
}
use event_pipeline_extension.Prelude.Result.{Result, ok, raise}
use event_pipeline_extension.Json.{Json}
use event_pipeline_extension.EventId.{Codec, str_of}
use event_pipeline_extension.Client.{
  Reply, response, ClientError, Http, Client, do_get, read_event, is_unauthorized,
}
use event_pipeline_extension.Client.Laws.{read_event-ok}
use event_pipeline_extension.Client.Sharing.{
  Place, checking, logging_in, caching, fetching, returned, after_check, after_login, after_fetch,
  advance, note_token,
}

module _ (codec : Codec) (http : Http) (start : Client) where
  -- The token was cached at the start, or a login has returned it.
  abbrev pub IsIssued : List Json → Json → Type 0
  IsIssued [] token = start.token ≡ some token
  IsIssued (latest ∷ issued) token = (token ≡ latest) ⊎ IsIssued issued token

  -- event-api answered a request for the event under such a token by a status below 400 and this body.
  pub record IsAnswered (issued : List Json) (event_id : String) (event : Json) : Type 0 where
    pub token : Json
    pub before : http.State
    pub after : http.State
    pub status : ℕ
    pub known : IsIssued issued token
    pub answer :
        http.get before (start.base_url <> "/events/" <> event_id) (str_of codec token)
        ≡ (response status (ok event), after)
    pub good : status < 400

  abbrev pub IsSound : List Json → String → Place → Type 0
  IsSound issued event_id (caching again token) = IsIssued issued token
  IsSound issued event_id (fetching again token) = IsIssued issued token
  IsSound issued event_id (returned (ok event)) = IsAnswered issued event_id event
  IsSound issued event_id _ = Unit

  abbrev pub CachedIssued : List Json → Option Json → Type 0
  CachedIssued issued cached = (token : Json) → cached ≡ some token → IsIssued issued token

  -- A step adds a token at most.
  IsIssued-note_token :
      (issued : List Json) (place : Place) (token : Json)
      → IsIssued issued token
      → IsIssued (note_token codec http place issued) token
  IsIssued-note_token issued (caching again latest) token h = inr h
  IsIssued-note_token issued checking token h = h
  IsIssued-note_token issued (logging_in again) token h = h
  IsIssued-note_token issued (fetching again latest) token h = h
  IsIssued-note_token issued (returned r) token h = h

  pub IsSound-note_token :
      (issued : List Json) (event_id : String) (place next : Place)
      → IsSound issued event_id place
      → IsSound (note_token codec http next issued) event_id place
  IsSound-note_token issued event_id checking next h = tt
  IsSound-note_token issued event_id (logging_in again) next h = tt
  IsSound-note_token issued event_id (caching again token) next h =
      IsIssued-note_token issued next token h
  IsSound-note_token issued event_id (fetching again token) next h =
      IsIssued-note_token issued next token h
  IsSound-note_token issued event_id (returned (raise ex)) next h = tt
  IsSound-note_token issued event_id (returned (ok event)) next h = record {
    token = h.token;
    before = h.before;
    after = h.after;
    status = h.status;
    known = IsIssued-note_token issued next h.token h.known;
    answer = h.answer;
    good = h.good;
  }

  check-IsSound :
      (issued : List Json) (event_id : String) (cached : Option Json)
      → CachedIssued issued cached
      → IsSound
          (note_token codec http (after_check codec http cached) issued)
          event_id
          (after_check codec http cached)
  check-IsSound issued event_id none h = tt
  check-IsSound issued event_id (some token) h = h token refl

  login-IsSound :
      (issued : List Json) (event_id : String) (again : Bool) (r : Result ClientError Json)
      → IsSound
          (note_token codec http (after_login codec http again r) issued)
          event_id
          (after_login codec http again r)
  login-IsSound issued event_id again (ok token) = inl refl
  login-IsSound issued event_id again (raise ex) = tt

  -- What a call returns is what its last reply says.
  fetch-IsSound :
      (issued : List Json) (event_id : String) (again : Bool) (token : Json) (reply : Reply)
      (before after : http.State)
      → IsIssued issued token
      → http.get before (start.base_url <> "/events/" <> event_id) (str_of codec token)
        ≡ (reply, after)
      → IsSound
          (note_token codec http (after_fetch codec http again reply) issued)
          event_id
          (after_fetch codec http again reply)
  fetch-IsSound issued event_id again token reply before after known e =
      by_answer (is_unauthorized codec http reply && not again) (read_event codec http reply) refl
    where
      by_answer :
          (retry : Bool) (r : Result ClientError Json)
          → read_event codec http reply ≡ r
          → let next = if retry then logging_in true else returned r in
            IsSound (note_token codec http next issued) event_id next
      by_answer true r read = tt
      by_answer false (raise ex) read = tt
      by_answer false (ok event) read =
          let (status, is_response, good) = read_event-ok codec http reply event read in
          record {
            token = token;
            before = before;
            after = after;
            status = status;
            known = known;
            answer = e ∙ ap (λ r. (r, after)) is_response;
            good = good;
          }

  pub advance-IsSound :
      (issued : List Json) (event_id : String) (place : Place) (c : Client) (h : http.State)
      → c.base_url ≡ start.base_url
      → CachedIssued issued c.token
      → IsSound issued event_id place
      → let next = (advance codec http event_id place c h).0 in
        IsSound (note_token codec http next issued) event_id next
  unfolding advance do_get
  advance-IsSound issued event_id checking c h url cached s =
      check-IsSound issued event_id c.token cached
  advance-IsSound issued event_id (logging_in again) c h url cached s =
      login-IsSound issued event_id again _
  advance-IsSound issued event_id (caching again token) c h url cached s = s
  advance-IsSound issued event_id (fetching again token) c h url cached s =
      let (reply, after) = do_get codec http event_id token c h in
      fetch-IsSound issued event_id again token reply h after s
        (ap (λ u. http.get h (u <> "/events/" <> event_id) (str_of codec token)) (sym url))
  advance-IsSound issued event_id (returned (ok event)) c h url cached s = s
  advance-IsSound issued event_id (returned (raise ex)) c h url cached s = tt

  pub advance-CachedIssued :
      (issued : List Json) (event_id : String) (place : Place) (c : Client) (h : http.State)
      → CachedIssued issued c.token
      → IsSound issued event_id place
      → CachedIssued
          (note_token codec http (advance codec http event_id place c h).0 issued)
          (advance codec http event_id place c h).1.token
  unfolding advance
  advance-CachedIssued issued event_id checking c h cached s =
      λ t e. IsIssued-note_token issued _ t (cached t e)
  advance-CachedIssued issued event_id (logging_in again) c h cached s =
      λ t e. IsIssued-note_token issued _ t (cached t e)
  advance-CachedIssued issued event_id (caching again token) c h cached s =
      λ t e. let same : token ≡ t = cc in subst (IsIssued issued) same s
  advance-CachedIssued issued event_id (fetching again token) c h cached s =
      λ t e. IsIssued-note_token issued _ t (cached t e)
  advance-CachedIssued issued event_id (returned r) c h cached s = cached

  pub advance-base_url :
      (event_id : String) (place : Place) (c : Client) (h : http.State)
      → (advance codec http event_id place c h).1.base_url ≡ c.base_url
  unfolding advance
  advance-base_url event_id checking c h = refl
  advance-base_url event_id (logging_in again) c h = refl
  advance-base_url event_id (caching again token) c h = refl
  advance-base_url event_id (fetching again token) c h = refl
  advance-base_url event_id (returned r) c h = refl
