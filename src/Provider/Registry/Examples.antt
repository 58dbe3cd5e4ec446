-- ===== src/Provider/Registry/Examples.antt =====
-- Runs of internal/provider/registry.go on a small registry.
use mathlib.Core.List.{Mem, Perm}
use claude_code_gateway.Prelude.{
  ℕ, ◌+◌, ◌%◌, ◌≡◌, ◌≢◌, ◌↔◌, ◌⊎◌, refl, String, false, [], ◌∷◌, some, In, Distinct,
}
use claude_code_gateway.Prelude.GoMap.{get, put}
use claude_code_gateway.Prelude.Text.{has_prefix, bytes}
use claude_code_gateway.Provider.Breaker.{is_open}
use claude_code_gateway.Prelude.Int.{pos}
use claude_code_gateway.Config.Examples.{small}
use claude_code_gateway.Provider.Registry.{
  Registry, Target, CompiledRule, ResolveInfo, apply, load_providers, new_upstream, compile_rule,
  exchange, sort_rules, chain_targets, fnv32, fnv_step,
}
use claude_code_gateway.Provider.Registry.Choice.{
  resolve, chosen, order_by_strategy, catalog, first_rule, static_models, discovered_models,
  match_scenario, match_rules, match_alias, rule_match, rule_model, pick_live, live, list_providers,
  add_models, add_aliases, add,
}
use claude_code_gateway.Provider.Registry.Rules.{Longest, sort_rules-Longest}
use claude_code_gateway.Provider.Registry.Resolving.{IsShut, resolve_targets}
use claude_code_gateway.Provider.Registry.Listing.{ids, catalog-ids}

program : Unit {0}
unfolding apply load_providers new_upstream compile_rule exchange sort_rules chain_targets resolve
    chosen order_by_strategy catalog first_rule match_scenario match_rules match_alias rule_match
    rule_model pick_live live list_providers add_models add_aliases add get put has_prefix is_open
    fnv32 fnv_step bytes
program = tt

abbrev registry : Registry
unfolding program
registry = record (apply small.routing small.providers) {
  discovered = ("b", "claude-x" ∷ "gpt" ∷ []) ∷ [];
}

abbrev plain : ResolveInfo
plain = record { est_tokens = pos 100; has_image = false; thinking = false; session_id = "" }

abbrev target : String → String → Target
target n m = record { name = n; model = m }

abbrev random : ℕ → ℕ
random n = (n + 3) % 7

resolves : resolve random registry 0 "claude-x" plain ≡ (target "b" "claude-x" ∷ [], "claude-x")
unfolding program
resolves = refl

lists : ids (catalog registry) ≡ "claude-x" ∷ "gpt" ∷ "claude/claude-x" ∷ "claude/gpt" ∷ []
unfolding program
lists = refl

-- The first value of https://datatracker.ietf.org/doc/html/draft-eastlake-fnv for a single letter.
fnv32_a : fnv32 "a" ≡ 3826002220
unfolding program
fnv32_a = refl

abbrev some_rule : String → CompiledRule
some_rule prefix = record {
  prefix = prefix;
  strip = false;
  chain = "a" ∷ [];
  mmap = [];
  targets = [];
  load_balance = false;
  strategy = "";
}

sort_rules-Longest_example :
    Longest
      (some_rule "" ∷ some_rule "claude-" ∷ [])
      "claude-x"
      (first_rule (sort_rules 2 (some_rule "" ∷ some_rule "claude-" ∷ [])) "claude-x")
sort_rules-Longest_example = sort_rules-Longest (some_rule "" ∷ some_rule "claude-" ∷ []) "claude-x"

picks_longer :
    first_rule (sort_rules 2 (some_rule "" ∷ some_rule "claude-" ∷ [])) "claude-x"
    ≡ some (some_rule "claude-")
unfolding program
picks_longer = refl

resolve_targets_example :
    ((t : Target)
      → Mem t (chosen random registry "claude-x" plain).0
      → ¬ IsShut registry 0 t
      → (u : Target)
      → Mem u (resolve random registry 0 "claude-x" plain).0
        ↔ (Mem u (chosen random registry "claude-x" plain).0 × (¬ IsShut registry 0 u)))
    × (((t : Target) → Mem t (chosen random registry "claude-x" plain).0 → IsShut registry 0 t)
        → Perm
            (resolve random registry 0 "claude-x" plain).0
            (chosen random registry "claude-x" plain).0)
resolve_targets_example = resolve_targets random registry 0 "claude-x" plain

catalog-ids_example :
    Distinct (ids (catalog registry))
    × (¬ In "" (ids (catalog registry)))
    × ((n m : String)
        → m ≢ ""
        → In n registry.order
        → In m (static_models registry n) ⊎ In m (discovered_models registry n)
        → In m (ids (catalog registry)))
catalog-ids_example = catalog-ids registry
