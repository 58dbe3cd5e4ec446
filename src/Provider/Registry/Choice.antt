-- ===== src/Provider/Registry/Choice.antt =====
-- internal/provider/registry.go: `Resolve`, with the matching of scenarios and rules, and `Catalog`.
use Prim.Native.String.{len, ◌++◌ as str_append}
use claude_code_gateway.Prelude.{
  ℕ, String, Bool, true, false, not, ◌&&◌, ◌||◌, List, [], ◌∷◌, ◌++◌, Option, none, some, ltb,
  if◌then◌else◌, ◌==◌, string_eq, length,
}
use mathlib.Core.List.{reverse}
use claude_code_gateway.Prelude.GoMap.{GoMap, get, put}
use claude_code_gateway.Prelude.Int.{pos, ltb_ℤ, leb_ℤ}
use claude_code_gateway.Prelude.Text.{has_prefix, trim_prefix}
use claude_code_gateway.Config
use claude_code_gateway.Provider.Breaker.{is_open}
use claude_code_gateway.Provider.Registry.{
  Target, CatalogEntry, CompiledRule, Registry, ResolveInfo, chain_targets, sticky_rotate,
  sort_back, weighted_less, least_busy_less, latency_less,
}

-- A match: the targets and the model.
abbrev pub Match : Type 0
Match = List Target × String

-- The first target's model; the code reads it only where there is one.
abbrev pub first_model : List Target → String
first_model [] = ""
first_model (t ∷ ts) = t.model

unfoldable pub rule_model : CompiledRule → String → String
rule_model ru model =
    let m = if ru.strip && not (ru.prefix == "") then trim_prefix model ru.prefix else model in
    elim (get ru.mmap m) [ none ↦ m | some mapped ↦ mapped ]

abbrev pub applies : CompiledRule → String → Bool
applies ru model = ru.prefix == "" || has_prefix model ru.prefix

-- The first rule whose prefix fits.
unfoldable pub first_rule : List CompiledRule → String → Option CompiledRule
first_rule [] model = none
first_rule (ru ∷ rus) model = if applies ru model then some ru else first_rule rus model

abbrev pub chain_of : Option Config.ChainScenario → List String
chain_of none = []
chain_of (some s) = s.chain

-- `sc != nil && len(sc.Chain) > 0`
abbrev pub has_chain : Option Config.ChainScenario → Bool
has_chain s = ltb 0 (length (chain_of s))

abbrev pub long_chain : Option Config.LongContextScenario → ResolveInfo → List String
long_chain none inf = []
long_chain (some lc) inf =
    if ltb_ℤ (pos 0) lc.threshold_tokens && leb_ℤ lc.threshold_tokens inf.est_tokens
    then lc.chain
    else []

module _ (r : Registry) where
  unfoldable pub match_scenario : String → ResolveInfo → Option Match
  match_scenario model inf =
      let sc = r.scenarios in
      if ltb 0 (length (long_chain sc.long_context inf))
      then some (chain_targets (long_chain sc.long_context inf) model, model)
      else if inf.has_image && has_chain sc.image
      then some (chain_targets (chain_of sc.image) model, model)
      else if inf.thinking && has_chain sc.thinking
      then some (chain_targets (chain_of sc.thinking) model, model)
      else none

  -- `p != nil && p.IsOpen(now)`
  abbrev pub shut_off : ℕ → Target → Bool
  shut_off now t = elim (get r.providers t.name) [ none ↦ false | some u ↦ is_open now u.health ]

  unfoldable pub live : ℕ → List Target → List Target
  live now [] = []
  live now (t ∷ ts) = let rest = live now ts in if shut_off now t then rest else t ∷ rest

  -- The closure `pick` of `Resolve`.
  unfoldable pub pick_live : ℕ → ResolveInfo → Match → Match
  unfolding live
  pick_live now inf (tg, m) =
      let tg' =
        if r.affinity && not (inf.session_id == "") && ltb 1 (length tg)
        then sticky_rotate tg inf.session_id
        else tg in
      if ltb 0 (length (live now tg')) then (live now tg', m) else (tg', m)

module _ (random : ℕ → ℕ) (r : Registry) where
  -- The draws that one call makes are numbered from 0.
  unfoldable pub order_by_strategy : List Target → String → List Target
  order_by_strategy tg strategy =
      let less =
        if strategy == "least_busy"
        then least_busy_less random r.providers
        else if strategy == "latency"
        then latency_less random r.providers
        else weighted_less random r.providers in
      reverse (sort_back less [] tg 0).0

  unfoldable pub rule_match : CompiledRule → String → Match
  unfolding rule_model
  rule_match ru model =
      let tg = if ru.load_balance then order_by_strategy ru.targets ru.strategy else ru.targets in
      let m = rule_model ru model in
      let chained = chain_targets ru.chain m in
      if ltb 0 (length ru.targets)
      then (tg, first_model tg)
      else if ru.load_balance && ltb 1 (length ru.chain)
      then (order_by_strategy chained ru.strategy, m)
      else (chained, m)

  unfoldable pub match_rules : String → Option Match
  unfolding first_rule
  match_rules model = elim (first_rule r.rules model) [
    | none ↦ none
    | some ru ↦ some (rule_match ru model)
  ]

  -- The rules for a model behind the prefix `claude/`.
  unfoldable pub match_alias : String → Option Match
  match_alias model =
      if r.alias && has_prefix model "claude/" && ltb (len "claude/") (len model)
      then match_rules (trim_prefix model "claude/")
      else none

  abbrev pub or_match : Option Match → Match → Match
  or_match none d = d
  or_match (some m) d = m

  -- What `Resolve` chooses before it looks at the breakers.
  unfoldable pub chosen : String → ResolveInfo → Match
  chosen model inf = or_match (match_scenario r model inf) (
      or_match (match_rules model)
        (or_match (match_alias model) (chain_targets r.def_chain model, model)))

  unfoldable pub resolve : ℕ → String → ResolveInfo → Match
  resolve now model inf = pick_live r now inf (chosen model inf)

-- `add`: the identifiers seen, and the entries so far.
abbrev pub Listed : Type 0
Listed = GoMap String Bool × List CatalogEntry

abbrev pub seen_id : GoMap String Bool → String → Bool
seen_id m id = elim (get m id) [ none ↦ false | some b ↦ b ]

unfoldable pub add : String → String → Listed → Listed
add id prov (seen, out) =
    if id == "" || seen_id seen id
    then (seen, out)
    else (put seen id true, out ++ record { id = id; provider = prov } ∷ [])

unfoldable pub add_models : String → List String → Listed → Listed
add_models prov [] l = l
add_models prov (m ∷ ms) l = add_models prov ms (add m prov l)

-- A provider of the order that the map lacks would be a nil dereference; `apply` fills both.
abbrev pub static_models : Registry → String → List String
static_models r n = elim (get r.providers n) [ none ↦ [] | some u ↦ u.cfg.models ]

abbrev pub discovered_models : Registry → String → List String
discovered_models r n = elim (get r.discovered n) [ none ↦ [] | some ms ↦ ms ]

unfoldable pub list_providers : Registry → List String → Listed → Listed
list_providers r [] l = l
list_providers r (n ∷ ns) l =
    list_providers r ns (add_models n (discovered_models r n) (add_models n (static_models r n) l))

unfoldable pub add_aliases : List CatalogEntry → Listed → Listed
add_aliases [] l = l
add_aliases (c ∷ cs) l = add_aliases cs (
    if not (has_prefix c.id "claude/") && not (has_prefix c.id "anthropic/")
    then add (str_append "claude/" c.id) c.provider l
    else l)

unfoldable pub catalog : Registry → List CatalogEntry
catalog r =
    let listed = list_providers r r.order ([], []) in
    (if r.alias then add_aliases listed.1 listed else listed).1
