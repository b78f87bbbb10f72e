-- ===== src/Api/Laws.antt =====
-- What a replay does to what clients see, on every path.
use event_pipeline_extension.Prelude.{
  ℕ, ◌<◌, String, ◌≡◌, ◌≢◌, refl, ◌∙◌, ap, ◌⊎◌, inl, inr, Bool, true, false, some, arith, string_eq,
  eq_law,
}
use event_pipeline_extension.Prelude.Result.{Result, ok, raise}
use event_pipeline_extension.Errors.{Exception}
use event_pipeline_extension.Json.{Json, dict}
use event_pipeline_extension.EventId.{Codec}
use event_pipeline_extension.Store.{EventStore, EventRecord, processed, lookup, mark_pending}
use event_pipeline_extension.Store.History.{view-pend}
use event_pipeline_extension.Client.{
  ClientError, event_not_found, Http, Client, response, do_get, read_event, get_event,
}
use event_pipeline_extension.Publisher.{Producer}
use event_pipeline_extension.Api.{
  Body, Response, respond, crashed, accepted, event_status, Encoder, World, on_client_error,
  after_publish, publish_event, after_fetch, replay,
}

-- A processed event is not seen otherwise when some event is marked pending.
status-mark_pending_processed :
    (event_id e : String) (s : EventStore) (r : EventRecord)
    → lookup s e ≡ some r
    → r.status ≡ processed
    → event_status (mark_pending event_id s) e ≡ event_status s e
unfolding event_status
status-mark_pending_processed event_id e s r h p =
    ground (arith, eq_law event_id e, view-pend e event_id s)

module _ (codec : Codec) (encoder : Encoder) (http : Http) (producer : Producer)
    (topic : String) where
  abbrev Shared : Type 0
  Shared = World codec encoder http producer topic

  -- Either the replay was accepted, and the event is marked pending, or it was not, and the store is
  -- as it was.
  pub record IsAccepted (event_id : String) (w : Shared) (o : Response × Shared) : Type 0 where
    pub response : o.0 ≡ respond 202 (accepted event_id)
    pub marked : o.1.store ≡ mark_pending event_id w.store

  pub record IsRefused (w : Shared) (o : Response × Shared) : Type 0 where
    pub response : (body : Body) → o.0 ≢ respond 202 body
    pub unmarked : o.1.store ≡ w.store

  abbrev Verdict : String → Shared → Response × Shared → Type 0
  Verdict event_id w o = IsAccepted event_id w o ⊎ IsRefused w o

  after_publish-Verdict :
      (event_id : String) (w : Shared) (r : Result Exception (Unit {0}) × producer.State)
      → Verdict event_id w (after_publish codec encoder http producer topic event_id w r)
  after_publish-Verdict event_id w (raise ex, p) =
      inr (record { response = λ body e. ground arith; unmarked = refl })
  after_publish-Verdict event_id w (ok _, p) = inl (record { response = refl; marked = refl })

  publish_event-Verdict :
      (event_id : String) (w : Shared) (event : Json)
      → Verdict event_id w (publish_event codec encoder http producer topic event_id w event)
  publish_event-Verdict event_id w (dict fields) = after_publish-Verdict event_id w _
  publish_event-Verdict event_id w _ = inr (record { response = λ body e. cc; unmarked = refl })

  pub on_client_error_refuses :
      (event_id : String) (ex : ClientError) (body : Body)
      → on_client_error codec encoder http producer topic event_id ex ≢ respond 202 body
  on_client_error_refuses event_id event_not_found body e = ground arith
  on_client_error_refuses event_id _ body e = ground arith

  -- A replay is accepted or refused as a whole. If it is accepted, the response is 202 with the event's
  -- id and the event is marked pending; otherwise (not configured, not found, event-api or Kafka
  -- failing, or an exception that the handler does not catch) the response is not 202 and the store
  -- is as it was.
  pub replay-Verdict :
      (configured : Bool) (event_id : String) (w : Shared)
      → Verdict event_id w (replay codec encoder http producer topic configured event_id w)
  unfolding replay
  replay-Verdict false event_id w =
      inr (record { response = λ body e. ground arith; unmarked = refl })
  replay-Verdict true event_id w = fetched (get_event codec http event_id w.client w.http_state)
    where
      fetched :
          (r : Result ClientError Json × Client × http.State)
          → Verdict event_id w (after_fetch codec encoder http producer topic event_id w r)
      fetched (raise ex, c, h) =
          inr (record { response = on_client_error_refuses event_id ex; unmarked = refl })
      fetched (ok event, c, h) =
          elim (publish_event-Verdict event_id (record w { client = c; http_state = h }) event) [
            | inl yes_ ↦ inl (record { response = yes_.response; marked = yes_.marked })
            | inr no_ ↦ inr (record { response = no_.response; unmarked = no_.unmarked })
          ]

  -- Whatever a replay comes to, the status endpoint answers about a processed event, the replayed one
  -- or any other, as it did before.
  pub replay_keeps_processed :
      (configured : Bool) (event_id : String) (w : Shared) (e : String) (r : EventRecord)
      → lookup w.store e ≡ some r
      → r.status ≡ processed
      → event_status (replay codec encoder http producer topic configured event_id w).1.store e
        ≡ event_status w.store e
  replay_keeps_processed configured event_id w e r h p =
      elim (replay-Verdict configured event_id w) [
        | inl taken ↦
            ap (λ s. event_status s e) taken.marked
            ∙ status-mark_pending_processed event_id e w.store r h p
        | inr refused ↦ ap (λ s. event_status s e) refused.unmarked
      ]

  -- A response of event-api below 400 whose body is not JSON is no `UpstreamError`: with a cached
  -- token, the exception of `json()` passes through the client and the handler.
  pub replay_bad_body :
      (event_id : String) (w : Shared) (token : Json) (status : ℕ) (ex : Exception)
      → w.client.token ≡ some token
      → (do_get codec http event_id token w.client w.http_state).0 ≡ response status (raise ex)
      → status < 400
      → (replay codec encoder http producer topic true event_id w).0 ≡ crashed ex
  unfolding replay get_event read_event
  replay_bad_body event_id w token status ex cached reply small = ground arith
