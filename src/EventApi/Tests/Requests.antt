-- ===== src/EventApi/Tests/Requests.antt =====
-- Requests of strangers and of a user, at a running service; and the settings of its tokens.
use event_pipeline_extension.Prelude.{
  ℕ, zero, suc, String, ◌≡◌, ◌≢◌, refl, Option, none, some, List, [], ◌∷◌, ◌==◌, string_eq, eq_law,
  arith,
}
use event_pipeline_extension.Prelude.Result.{ok}
use event_pipeline_extension.Json.{pos}
use event_pipeline_extension.EventApi.Security.{post, delete, authenticate}
use event_pipeline_extension.EventApi.Security.Provider.{
  JwtProperties, Texts, Provider, new_provider,
}
use event_pipeline_extension.EventApi.Requests.{Request, serve_all}
use event_pipeline_extension.EventApi.Requests.Laws.{IsNoAdmin, row, no_admin_keeps}
use event_pipeline_extension.EventApi.Tests.{rows_in_memory-IsLawful}
use event_pipeline_extension.EventApi.Tests.Server.{deployment, running}

abbrev drawn : ℕ → String
drawn n = "evt-2"

abbrev creation : Request
creation = record { method = post; path = "events" ∷ []; header = none; body = none }

abbrev removal : Request
removal = record { method = delete; path = "events" ∷ "evt-1" ∷ []; header = none; body = none }

without_header : IsNoAdmin deployment drawn rows_in_memory-IsLawful creation
unfolding authenticate
without_header now p e = cc

not_drawn : ◌≢◌ {A = String} "evt-1" "evt-2"
not_drawn = ground (arith, eq_law {A = String} "evt-1" "evt-2")

no_admin_keeps_example :
    row deployment drawn rows_in_memory-IsLawful
      (serve_all deployment drawn (creation ∷ removal ∷ []) running)
      "evt-1"
    ≡ row deployment drawn rows_in_memory-IsLawful running "evt-1"
no_admin_keeps_example =
    no_admin_keeps deployment drawn rows_in_memory-IsLawful (creation ∷ removal ∷ []) running
      "evt-1" (without_header, (without_header, tt)) (λ n. not_drawn)

abbrev zeros : ℕ → List ℕ
zeros zero = []
zeros (suc n) = 0 ∷ zeros n

abbrev texts : Texts
texts = record { blank = λ s. s == ""; decode = λ s. ok (zeros 32) }

abbrev settings : Option JwtProperties
settings = some (record { secret = some "AAAA"; expiration_minutes = pos 60 })

abbrev provider : Provider
provider = record { signing_key = zeros 32; expiration_ms = pos 3600000 }

made : new_provider texts settings ≡ ok provider
unfolding new_provider
made = refl
