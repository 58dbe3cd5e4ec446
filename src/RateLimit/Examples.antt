-- ===== src/RateLimit/Examples.antt =====
-- Runs of internal/ratelimit/ratelimit.go.
use claude_code_gateway.Prelude.{
  none, map, false, string_eq, ℕ, ◌+◌, ◌*◌, ◌≤◌, ◌≡◌, refl, String, true, List, [], ◌∷◌, some,
  arith,
}
use claude_code_gateway.Prelude.GoMap.{get, put}
use claude_code_gateway.Prelude.Int.{pos, ◌+ℤ◌, ◌-ℤ◌}
use claude_code_gateway.Prelude.Time.{second}
use claude_code_gateway.Cache.Examples.{integers}
use claude_code_gateway.State.{MemEntry, Memory, memory_store, incr_window, incr_float}
use claude_code_gateway.RateLimit.{
  window, allow, allow_tokens, Limiter, new, allow_local, allow_tokens_local, bucket_of,
}
use claude_code_gateway.RateLimit.Calls.{Call, request, tokens, passed}
use claude_code_gateway.RateLimit.Requests.{of_key, made, smaller, passed-made}
use claude_code_gateway.RateLimit.Refunds.{Ask, answers_of, IsTooMuch, answers_of-refused}
use claude_code_gateway.RateLimit.Tokens.{asked_for, granted-le}

abbrev start : ℕ
start = 63_900_000_000 * second

abbrev limits : String → ℕ
limits k = 100

abbrev ask : String → ℕ → Call
ask k n = request k (start + n * second)

abbrev ask_tokens : String → ℕ → ℕ → Call
ask_tokens k e n = tokens k e (start + n * second)

abbrev calls : List Call
calls =
    ask "a" 0
    ∷ ask_tokens "a" 60 0
    ∷ ask "b" 10
    ∷ ask_tokens "b" 70 10
    ∷ ask "a" 20
    ∷ ask_tokens "a" 50 20
    ∷ ask "a" 30
    ∷ ask_tokens "a" 40 30
    ∷ []

passed-made_example :
    passed 2 limits integers
      (memory_store integers)
      (of_key "a")
      calls
      (new integers (memory_store integers) (pos 2))
    ≡ smaller (made "a" calls) 2
passed-made_example =
    passed-made integers (memory_store integers) 2 limits "a" (window start) calls
      (refl, (refl, (refl, (refl, (refl, (refl, (refl, (refl, tt)))))))) (omega arith)

granted-le_example :
    passed 2 limits integers
      (memory_store integers)
      (asked_for "a")
      calls
      (new integers (memory_store integers) (pos 2))
    ≤ 100
granted-le_example =
    granted-le integers (memory_store integers) 2 limits "a" (window start) calls
      (refl, (refl, (refl, (refl, (refl, (refl, (refl, (refl, tt)))))))) (omega arith) (omega arith)

grants_exactly :
    passed 2 limits integers
      (memory_store integers)
      (asked_for "a")
      calls
      (new integers (memory_store integers) (pos 2))
    ≡ 100
unfolding allow allow_tokens allow_local bucket_of allow_tokens_local new get put ◌+ℤ◌
grants_exactly = refl

-- With the store in memory: the second request is refused and given back, and the third passes.
abbrev limiter : Limiter integers (memory_store integers)
limiter = record { rpm = pos 5; buckets = []; shared = some []; prefix = "ccg:rl" }

refunds :
    let l₁ =
      (allow_tokens integers (memory_store integers) "a" (pos 60) (pos 100) start limiter).0 in
    let l₂ = (allow_tokens integers (memory_store integers) "a" (pos 50) (pos 100) start l₁).0 in
    (allow_tokens integers (memory_store integers) "a" (pos 40) (pos 100) start l₂).1 ≡ true
unfolding allow_tokens incr_window incr_float memory_store get put ◌+ℤ◌ ◌-ℤ◌
refunds = refl

-- The second request comes on the next day.
abbrev counted_60 : MemEntry integers
counted_60 = record { content = none; f = pos 60; is_f = true; expire = start + 60 * second }

abbrev held : Memory integers
held = ("ccg:rl:tpm:a", counted_60) ∷ []

abbrev holding : Limiter integers (memory_store integers)
holding = record { rpm = pos 5; buckets = []; shared = some held; prefix = "ccg:rl" }

abbrev too_much : ℕ → Ask
too_much n = record { est = pos 50; at = start + n * second }

too_much-IsTooMuch : (n : ℕ) → IsTooMuch integers (pos 60) (pos 100) (too_much n)
unfolding ◌+ℤ◌ ◌-ℤ◌
too_much-IsTooMuch n = record { some_tokens = refl; over = refl; refunded = refl }

answers_of-refused_example :
    answers_of integers (too_much 10 ∷ too_much 86_400 ∷ []) "a" (pos 100) holding
    ≡ map (λ _. false) (too_much 10 ∷ too_much 86_400 ∷ [])
unfolding get
answers_of-refused_example =
    answers_of-refused integers "a" (pos 60) (pos 100) refl (too_much 10) (too_much 86_400 ∷ [])
      holding held counted_60 refl refl refl refl refl
      (too_much-IsTooMuch 10, (too_much-IsTooMuch 86_400, tt))
