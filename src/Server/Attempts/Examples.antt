-- ===== src/Server/Attempts/Examples.antt =====
-- Runs of the attempts of internal/server/handlers.go, with an upstream that fails for one key.
use claude_code_gateway.Prelude.{
  ℕ, ◌+◌, ◌*◌, ◌≡◌, refl, String, [], ◌∷◌, List, none, if◌then◌else◌, ◌==◌, string_eq, map,
}
use claude_code_gateway.Prelude.Int.{pos, ◌+ℤ◌}
use claude_code_gateway.Prelude.Text.{trim_space, trim_left, trim_right}
use claude_code_gateway.Prelude.Time.{second}
use claude_code_gateway.Config.Examples.{provider}
use claude_code_gateway.Provider.Breaker.{note_upstream, begin_request, end_request}
use claude_code_gateway.Provider.Pool.{
  new_pool, fresh_keys, pick, scan, first_ready, report, report_hint, report_keys, penalise,
  backoff,
}
use claude_code_gateway.Provider.Registry.{Upstream}
use claude_code_gateway.Server.Attempts.{
  World, Work, Attempt, ExecResult, replied, whole, withheld, attempts, attempt, received, rejected,
  served, concluded, unanswered, classify_status, parse_retry_after, round, Progress, trim_string,
  first_non_blank,
}
use claude_code_gateway.Server.Attempts.Balance.{Balanced, attempts-Balanced, load}
use claude_code_gateway.Server.Attempts.Once.{Apart, attempts-Apart, work_of, keys_of}

unfoldable pub program : Unit {0}
unfolding new_pool fresh_keys pick scan first_ready report report_hint report_keys penalise backoff
    note_upstream begin_request end_request attempts attempt received rejected served concluded
    unanswered classify_status parse_retry_after round trim_string first_non_blank trim_space
    trim_left trim_right
program = tt

abbrev pub result : ℕ → String → ExecResult
result status text = record {
  status = status;
  content_type = "application/json";
  retry_after = "";
  err_msg = "";
  body = record { lines = []; text = text; fault = none };
}

-- The key "b" is answered, "c" is refused for good, any other is told to come back later; an answer with
-- the text "secret" is withheld.
abbrev pub example : World String String
example = record {
  retry_statuses = 429 ∷ 500 ∷ [];
  key_fail_status = 401 ∷ [];
  now = λ n. (64_000_000_000 + n) * second;
  elapsed = λ n. pos 5;
  smooth = λ old ms. old;
  others = λ n u. u;
  execute = λ n name k path payload. replied (
      if k == "b"
      then result 200 payload
      else if k == "c"
      then result 400 "bad"
      else result 429 "later");
  atoi = λ s. none;
  parse_time = λ s. none;
  deliver = λ n u r. record {
    written = r.body.text ∷ [];
    ending = if r.body.text == "secret" then withheld else whole r.body.text;
  };
  pass_through = λ status text. text;
}

abbrev pub with_keys : List String → Upstream
unfolding program
with_keys ks = record {
  cfg = provider "p" ks;
  pool = new_pool ks;
  health = record { consec_fails = 0; open_until = 0; inflight = pos 0; latency = 0 };
}

abbrev fresh : List String → Work String
fresh ks = record {
  up = with_keys ks;
  tick = 0;
  sent = [];
  log = [];
  calls = [];
  last_prov = "";
  last_msg = "";
  last_status = 0;
}

abbrev run : List String → String → ℕ → Progress String String
run ks payload left = attempts example "/v1/messages" payload left [] (fresh ks)

-- The second key answers.
second_key :
    map (λ (a : Attempt). a.status) (work_of (run ("a" ∷ "b" ∷ []) "hi" 3)).log ≡ 429 ∷ 200 ∷ []
unfolding program
second_key = refl

-- A refusal for good ends the attempts.
refused_at_once : keys_of (work_of (run ("c" ∷ "b" ∷ []) "hi" 3)).calls ≡ "c" ∷ []
unfolding program
refused_at_once = refl

-- An answer that is withheld stays in flight, and its call is not in the log.
left_in_flight :
    let w = work_of (run ("b" ∷ []) "secret" 3) in
    (load w ≡ pos 1) × (w.log ≡ []) × (keys_of w.calls ≡ "b" ∷ [])
unfolding program ◌+ℤ◌
left_in_flight = (refl, refl, refl)

attempts-Balanced_example :
    Balanced (load (fresh ("a" ∷ "b" ∷ []))) (run ("a" ∷ "b" ∷ []) "secret" 3)
attempts-Balanced_example =
    attempts-Balanced example (λ n u. refl) "/v1/messages" "secret" 3 [] (fresh ("a" ∷ "b" ∷ []))

attempts-Apart_example : Apart 3 (fresh ("a" ∷ "b" ∷ [])).calls (run ("a" ∷ "b" ∷ []) "hi" 3)
attempts-Apart_example = attempts-Apart example "/v1/messages" "hi" 3 (fresh ("a" ∷ "b" ∷ []))
