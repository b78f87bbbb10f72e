-- ===== src/Client/Laws.antt =====
-- How often `get_event` calls event-api, and what it makes of the replies.
use event_pipeline_extension.Prelude.{
  ℕ, ◌+◌, ◌≤◌, ◌<◌, String, ◌≡◌, refl, ap, true, false, some, none, Bool, if◌then◌else◌, arith,
  nat_eq, Option,
}
use event_pipeline_extension.Prelude.Result.{Result, ok, raise}
use event_pipeline_extension.EventId.{Codec}
use event_pipeline_extension.Json.{Json}
use event_pipeline_extension.Client.{
  Reply, response, transport_error, uncaught, ClientError, Http, Client, login_and_cache,
  token_or_login, do_get, get_event, read_event, is_unauthorized, retry_with, request_with,
  token_from,
}

-- The server of `http`, with a count of the logins and of the fetches.
abbrev pub counted : Http → Http
counted http = record {
  State = record { inner : http.State; logins : ℕ; fetches : ℕ };
  post = λ s url credentials.
      let (reply, t) = http.post s.inner url credentials in
      (reply, record { inner = t; logins = s.logins + 1; fetches = s.fetches });
  get = λ s url token.
      let (reply, t) = http.get s.inner url token in
      (reply, record { inner = t; logins = s.logins; fetches = s.fetches + 1 });
}

module _ (codec : Codec) (http : Http) where
  -- However event-api answers, one `get_event` makes at most two logins and two fetches, and no more
  -- than one login if a token is cached.
  pub get_event_calls :
      (event_id : String) (c : Client) (s : (counted http).State)
      → let t = (get_event codec (counted http) event_id c s).2 in
        (t.logins ≤ s.logins + 2)
        × (t.fetches ≤ s.fetches + 2)
        × ((token : Json) → c.token ≡ some token → t.logins ≤ s.logins + 1)
  unfolding get_event do_get login_and_cache
  get_event_calls event_id c s = ground arith

  -- The last answer of event-api is the result: it was given to a request for the event under the
  -- token that the client now has, it is below 400, and its body is the event.
  pub record IsAnswer (event_id : String) (event : Json) (c : Client) (h : http.State)
      : Type 0 where
    pub token : Json
    pub before : http.State
    pub status : ℕ
    pub cached : c.token ≡ some token
    pub answer : do_get codec http event_id token c before ≡ (response status (ok event), h)
    pub good : status < 400

  pub read_event-ok :
      (reply : Reply) (event : Json)
      → read_event codec http reply ≡ ok event
      → (status : ℕ) × (reply ≡ response status (ok event)) × (status < 400)
  unfolding read_event
  read_event-ok transport_error event e = cc
  read_event-ok (uncaught ex) event e = cc
  read_event-ok (response status (ok body)) event e = (status, ground arith, ground arith)
  read_event-ok (response status (raise ex)) event e = ground arith

  -- What a login or the cache leaves: a client whose token is the one returned.
  login_and_cache-cached :
      (c : Client) (h : http.State) (token : Json)
      → (login_and_cache codec http c h).0 ≡ ok token
      → (login_and_cache codec http c h).1.token ≡ some token
  unfolding login_and_cache
  login_and_cache-cached c h token e = ground arith

  token_from-cached :
      (o : Option Json) (c : Client) (h : http.State) (token : Json)
      → c.token ≡ o
      → (token_from codec http o c h).0 ≡ ok token
      → (token_from codec http o c h).1.token ≡ some token
  token_from-cached none c h token held e = login_and_cache-cached c h token e
  token_from-cached (some t) c h token held e = cc

  retry_with-IsAnswer :
      (event_id : String) (event : Json) (r : Result ClientError Json) (c : Client) (h : http.State)
      → ((token : Json) → r ≡ ok token → c.token ≡ some token)
      → let end_state = retry_with codec http event_id (r, c, h) in
        end_state.0 ≡ ok event → IsAnswer event_id event end_state.1 end_state.2
  retry_with-IsAnswer event_id event (raise ex) c h cached e = cc
  retry_with-IsAnswer event_id event (ok token) c h cached e =
      let (status, reply, good) = read_event-ok (do_get codec http event_id token c h).0 event e in
      record {
        token = token;
        before = h;
        status = status;
        cached = cached token refl;
        answer = ap (λ r. (r, (do_get codec http event_id token c h).1)) reply;
        good = good;
      }

  request_with-IsAnswer :
      (event_id : String) (event : Json) (r : Result ClientError Json) (c : Client) (h : http.State)
      → ((token : Json) → r ≡ ok token → c.token ≡ some token)
      → let end_state = request_with codec http event_id (r, c, h) in
        end_state.0 ≡ ok event → IsAnswer event_id event end_state.1 end_state.2
  request_with-IsAnswer event_id event (raise ex) c h cached e = cc
  request_with-IsAnswer event_id event (ok token) c h cached e =
      answered (is_unauthorized codec http (do_get codec http event_id token c h).0) e
    where
      after : http.State
      after = (do_get codec http event_id token c h).1

      answered :
          (refused : Bool)
          → let end_state =
              if refused
              then retry_with codec http event_id (login_and_cache codec http c after)
              else retry_with codec http event_id (ok token, c, h) in
            end_state.0 ≡ ok event → IsAnswer event_id event end_state.1 end_state.2
      answered true e =
          let login = login_and_cache codec http c after in
          retry_with-IsAnswer event_id event login.0 login.1 login.2
            (login_and_cache-cached c after) e
      answered false e = retry_with-IsAnswer event_id event (ok token) c h cached e

  -- If `get_event` returns an event, event-api answered its last request, made under the token that
  -- the client has cached at the end, by a status below 400 and this event as the body.
  pub get_event-IsAnswer :
      (event_id : String) (event : Json) (c : Client) (h : http.State)
      → (get_event codec http event_id c h).0 ≡ ok event
      → IsAnswer event_id event
          (get_event codec http event_id c h).1
          (get_event codec http event_id c h).2
  unfolding get_event token_or_login
  get_event-IsAnswer event_id event c h e =
      let t = token_from codec http c.token c h in
      request_with-IsAnswer event_id event t.0 t.1 t.2
        (λ token. token_from-cached c.token c h token refl) e
