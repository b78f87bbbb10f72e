-- ===== src/Client/Sharing/Alone.antt =====
-- A thread that no other disturbs does what `get_event` does.
use event_pipeline_extension.Prelude.{ℕ, zero, suc, String, ◌≡◌, arith}
use event_pipeline_extension.EventId.{Codec}
use event_pipeline_extension.Client.{
  Http, Client, get_event, token_or_login, login_and_cache, do_get,
}
use event_pipeline_extension.Client.Sharing.{Place, checking, returned, advance}

module _ (codec : Codec) (http : Http) where
  -- Steps of one thread, one after the other.
  unfoldable pub run : ℕ → String → Place × Client × http.State → Place × Client × http.State
  run zero event_id s = s
  run (suc n) event_id (place, c, h) = run n event_id (advance codec http event_id place c h)

  -- Seven steps of one thread alone are the whole of `get_event`: its result, and the client and the
  -- HTTP state that it leaves.
  pub run-get_event :
      (event_id : String) (c : Client) (h : http.State)
      → run 7 event_id (checking, c, h) ≡ (
        returned (get_event codec http event_id c h).0,
        (get_event codec http event_id c h).1,
        (get_event codec http event_id c h).2,
      )
  unfolding run advance get_event token_or_login login_and_cache do_get
  run-get_event event_id c h = ground arith
