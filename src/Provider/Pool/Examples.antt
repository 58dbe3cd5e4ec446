-- ===== src/Provider/Pool/Examples.antt =====
-- Runs of internal/provider/pool.go on concrete pools.
use claude_code_gateway.Prelude.{
  ℕ, ◌+◌, ◌*◌, ◌≡◌, refl, Bool, true, false, [], ◌∷◌, some, arith, String, string_eq, List, ◌≢◌,
  length, get_elem?, ◌≤◌, ◌<◌, ◌⊎◌,
}
use claude_code_gateway.Prelude.Time.{minute}
use claude_code_gateway.Provider.Pool.{
  KeyState, Pool, key, pick, scan, first_ready, set_fill_first, report_hint, report_keys, penalise,
  soft_fail, hard_fail, new_pool, fresh_keys, fresh_key,
}
use claude_code_gateway.Provider.Pool.Scan.{views}
use claude_code_gateway.Provider.Pool.Pick.{IsBest, pick-IsBest}
use claude_code_gateway.Provider.Pool.FillFirst.{pick-set_fill_first}
use claude_code_gateway.Provider.Pool.Bench.{
  picking, reporting, Call, run, IsBenched, run-IsBenched,
}

program : Unit {0}
unfolding pick scan first_ready set_fill_first report_hint report_keys penalise new_pool fresh_keys
program = tt

abbrev pool : Pool
pool = record {
  keys =
      fresh_key "one"
      ∷ record (fresh_key "two") { cool_until = 50 * minute }
      ∷ fresh_key "three"
      ∷ [];
  idx = 1;
  weight = claude_code_gateway.Prelude.Int.pos 1;
  fill_first = true;
}

-- "two" is cooling down, so its turn goes to "three".
pick_skips : (pick (40 * minute) pool).1 ≡ key "three"
unfolding program
pick_skips = refl

new_pool_drops : length (new_pool ("a" ∷ "" ∷ "b" ∷ [])).keys ≡ 2
unfolding program
new_pool_drops = refl

pick-IsBest_example : IsBest (views pool.keys) (40 * minute) (pick (40 * minute) pool).1
pick-IsBest_example = pick-IsBest (40 * minute) pool

pick-set_fill_first_example :
    pick (40 * minute) (set_fill_first false pool)
    ≡ (set_fill_first false (pick (40 * minute) pool).0, (pick (40 * minute) pool).1)
pick-set_fill_first_example = pick-set_fill_first false (40 * minute) pool

abbrev two : KeyState
two = record (fresh_key "two") { cool_until = 50 * minute }

abbrev calls : List Call
calls =
    picking (41 * minute)
    ∷ reporting (42 * minute) "three" soft_fail (10 * minute)
    ∷ reporting (43 * minute) "one" hard_fail 0
    ∷ []

run-IsBenched_example : IsBenched (43 * minute) (run calls pool)
run-IsBenched_example = run-IsBenched calls (40 * minute) pool (omega arith) (omega arith)
