-- ===== src/Server/InFlight/Examples.antt =====
-- A run of `inFlight` of internal/server/ratelimit.go.
use claude_code_gateway.Prelude.{All, ◌≡◌, refl, true, List, [], ◌∷◌}
use claude_code_gateway.Server.InFlight.{
  InFlight, Step, begin, end_add, end_load, end_select, end_close, wait_store, wait_load, returned,
  step, new_in_flight, Reachable, at_start, after,
}
use claude_code_gateway.Server.InFlight.Waking.{IsUnderway, run, run-returned}

-- One request, which is counted out after `wait` has looked at the count.
abbrev last_ends : InFlight
unfolding step
last_ends = step end_add (step wait_load (step wait_store (step begin new_in_flight)))

last_ends-Reachable : Reachable last_ends
unfolding last_ends
last_ends-Reachable = after end_add (after wait_load (after wait_store (after begin at_start)))

run-returned_example :
    (as' : List Step) × All IsUnderway as' × ((run as' last_ends).waiter ≡ returned)
unfolding last_ends
run-returned_example = run-returned last_ends last_ends-Reachable refl refl

-- Two calls of `end` can both find the channel open: a request that begins after the count has been 0,
-- while `wait` is blocked, and ends before the first has closed it. The second close is a panic.
closes_twice :
    (run
      (end_load ∷ end_select ∷ begin ∷ end_add ∷ end_load ∷ end_select ∷ end_close ∷ end_close ∷ [])
      last_ends).panicked
    ≡ true
unfolding last_ends run
closes_twice = refl
