-- ===== src/System/Closing.antt =====
-- What the threads still do once the consumer thread has returned.
use event_pipeline_extension.Prelude.{◌≡◌, refl, inl, inr}
use event_pipeline_extension.EventId.{Codec}
use event_pipeline_extension.System.{
  System, Step, closed, subscribes, fails_to_start, stores, dispatches, raises, poll_raises, idles,
  submits, drains, drained, waits, commits, stops, drained_last, closes_loop, takes, finishes,
  closes,
}

module _ (codec : Codec) where
  -- A run of all threads from a state on.
  pub data Later (s : System) : System → Type 0 where
    now : Later s s
    next : {t u : System} → Later s t → Step codec t u → Later s u

  pub Step-closed :
      {s t : System}
      → Step codec s t
      → s.phase ≡ closed
      → (t.phase ≡ closed) × (t.requested ≡ s.requested) × (t.consumer ≡ s.consumer)
  Step-closed (subscribes p) c = cc
  Step-closed (fails_to_start p) c = cc
  Step-closed (stores d) c = (c, refl, refl)
  Step-closed (dispatches m p e) c = cc
  Step-closed (raises m ex p e) c = cc
  Step-closed (poll_raises p) c = cc
  Step-closed (idles p) c = cc
  Step-closed (submits m p e) c = cc
  Step-closed (drains d rest (inl p) e) c = cc
  Step-closed (drains d rest (inr p) e) c = cc
  Step-closed (drained p e) c = cc
  Step-closed (waits p) c = cc
  Step-closed (commits accepted p) c = cc
  Step-closed (stops p) c = cc
  Step-closed (drained_last p e) c = cc
  Step-closed (closes_loop accepted p) c = cc
  Step-closed (takes i lt e) c = (c, refl, refl)
  Step-closed (finishes i m success lt e) c = (c, refl, refl)
  Step-closed (closes i lt e) c = (c, refl, refl)
