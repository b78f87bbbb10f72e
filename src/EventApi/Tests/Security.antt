-- ===== src/EventApi/Tests/Security.antt =====
-- Requests at the rules.
use event_pipeline_extension.Prelude.{◌≡◌, ◌↔◌, none, [], ◌∷◌}
use event_pipeline_extension.EventApi.Security.{post, permitted, authorize}
use event_pipeline_extension.EventApi.Security.Laws.{IsOpen, authorize-IsOpen}

authorize-IsOpen_example :
    (authorize post ("auth" ∷ "login" ∷ []) none ≡ permitted) ↔ IsOpen post ("auth" ∷ "login" ∷ [])
authorize-IsOpen_example = authorize-IsOpen post ("auth" ∷ "login" ∷ [])
