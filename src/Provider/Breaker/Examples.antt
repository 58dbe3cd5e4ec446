-- ===== src/Provider/Breaker/Examples.antt =====
-- Runs of the breaker of internal/provider/provider.go.
use claude_code_gateway.Prelude.{ℕ, ◌+◌, ◌*◌, ◌≡◌, refl, true, false, [], ◌∷◌, arith, List, ltb}
use claude_code_gateway.Prelude.Int.{pos}
use claude_code_gateway.Prelude.Time.{second, minute}
use claude_code_gateway.Provider.Breaker.{Health, note_upstream, is_open, open_for_seconds, unix}
use claude_code_gateway.Provider.Breaker.Opening.{Outcome, note_all, note_all-opens}

program : Unit {0}
unfolding note_upstream is_open open_for_seconds note_all
program = tt

abbrev start : ℕ
start = 63_900_000_000 * second

abbrev healthy : Health
healthy = record { consec_fails = 0; open_until = 0; inflight = pos 0; latency = 0 }

abbrev failed : ℕ → Outcome
failed s = record { good = false; at = start + s * second }

abbrev fine : ℕ → Outcome
fine s = record { good = true; at = start + s * second }

-- Four failures, a success and four more.
abbrev mixed : List Outcome
mixed =
    failed 0
    ∷ failed 1
    ∷ failed 2
    ∷ failed 3
    ∷ fine 4
    ∷ failed 5
    ∷ failed 6
    ∷ failed 7
    ∷ failed 8
    ∷ []

still_open :
    open_for_seconds
      (start + 19 * second)
      (note_upstream false (start + 9 * second) (note_all mixed healthy))
    ≡ 110
unfolding program
still_open = refl

note_all-opens_example :
    let h' = note_upstream false (start + 9 * second) (note_all mixed healthy) in
    (is_open (start + 60 * second) h'
      ≡ ltb (unix (start + 60 * second)) (unix (start + 9 * second + 2 * minute)))
    × (is_open (start + 60 * second) (note_upstream true (start + 10 * second) h')
        ≡ is_open (start + 60 * second) h')
note_all-opens_example =
    note_all-opens mixed healthy (start + 9 * second) (start + 60 * second) (start + 10 * second)
      (omega arith) (omega arith)
