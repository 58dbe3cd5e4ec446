-- ===== src/Server/Failover/Examples.antt =====
-- Runs of the loop over targets of internal/server/handlers.go.
use claude_code_gateway.Prelude.{ℕ, ◌≡◌, refl, String, [], ◌∷◌, List, Option, none, some, string_eq}
use claude_code_gateway.Prelude.GoMap.{get, put}
use claude_code_gateway.Provider.Registry.{Upstream, Target}
use claude_code_gateway.Server.Attempts.{delivered}
use claude_code_gateway.Server.Attempts.Examples.{example, with_keys, program}
use claude_code_gateway.Server.Failover.{Serving, Ended, answered, exhausted, serve}
use claude_code_gateway.Server.Failover.Bounded.{IsBounded, serve-IsBounded}

abbrev target : String → Target
target n = record { name = n; model = "m" }

abbrev start : Serving (Unit {0}) String
start = record {
  providers =
      ("p", with_keys ("a" ∷ [])) ∷ ("q", with_keys ("d" ∷ "b" ∷ [])) ∷ ("r", with_keys []) ∷ [];
  caches = tt;
  tick = 0;
  sent = [];
  log = [];
  calls = [];
  last_prov = "";
  last_msg = "";
  last_status = 0;
}

abbrev build : Upstream → Target → Option (String × String)
build u tg = some ("hi", "/v1/messages")

abbrev recall : Target → Upstream → String → Unit {0} → Unit {0} × Option String
recall tg u payload c = (c, none)

abbrev run : List Target → ℕ → Serving (Unit {0}) String × Ended String
run tgs left = serve (λ tg. example) build recall tgs left start

-- The provider without keys is passed over, and the last key of the third provider answers.
third_provider :
    (run (target "r" ∷ target "p" ∷ target "q" ∷ []) 8).1 ≡ answered (target "q") (delivered "hi")
unfolding serve program get put
third_provider = refl

-- With two attempts it is not reached, and the answer is that of the last failure.
too_few : (run (target "r" ∷ target "p" ∷ target "q" ∷ []) 2).1 ≡ exhausted 429
unfolding serve program get put
too_few = refl

serve-IsBounded_example :
    IsBounded
      (λ tg. example)
      build
      recall
      8
      []
      0
      (run (target "r" ∷ target "p" ∷ target "q" ∷ []) 8)
serve-IsBounded_example =
    serve-IsBounded (λ tg. example) build recall (target "r" ∷ target "p" ∷ target "q" ∷ []) 8 start
