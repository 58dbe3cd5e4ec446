-- ===== src/Provider/Registry.antt =====
-- internal/provider/registry.go: the routing rules, the choice of targets for a model, and the
-- catalog. The registry's lock is held for the whole of each method here. Discovery (the probe
-- goroutines) is left out, but for what it writes, `discovered`.
pub mod Choice
pub mod Rules
pub mod Balance
pub mod Resolving
pub mod Listing
mod Examples
use Prim.Native.String.{len, ◌++◌ as str_append}
use Prim.Native.Nat.{bit_xor}
use claude_code_gateway.Prelude.{
  ℕ, zero, suc, ◌+◌, ◌*◌, ◌%◌, ◌^◌, String, Bool, true, false, not, ◌&&◌, ◌||◌, List, [], ◌∷◌, ◌++◌,
  map, Option, none, some, ltb, leb, nat_beq, if◌then◌else◌, ◌==◌, string_eq, length, take, drop,
}
use claude_code_gateway.Prelude.GoMap.{GoMap, get, put}
use claude_code_gateway.Prelude.Int.{ℤ, pos, negsuc, ltb_ℤ, leb_ℤ, pos_part}
use claude_code_gateway.Prelude.Text.{has_prefix, trim_prefix, to_lower, equal_fold, bytes}
use claude_code_gateway.Config
use claude_code_gateway.Config.{Config}
use claude_code_gateway.Provider.Breaker.{Health, is_open}
use claude_code_gateway.Provider.Pool.{Pool, new_pool, set_weight, set_fill_first}

-- What the registry knows of a provider.
pub record Upstream : Type 0 where
  pub cfg : Config.Provider
  pub pool : Pool
  pub health : Health

pub record Target : Type 0 where
  pub name : String
  pub model : String

pub record CatalogEntry : Type 0 where
  pub id : String
  pub provider : String

pub record CompiledRule : Type 0 where
  pub prefix : String
  pub strip : Bool
  pub chain : List String
  pub mmap : GoMap String String
  pub targets : List Target
  pub load_balance : Bool
  pub strategy : String

pub record Registry : Type 0 where
  pub providers : GoMap String Upstream
  pub order : List String
  pub rules : List CompiledRule
  pub def_chain : List String
  pub alias : Bool
  pub scenarios : Config.Scenarios
  pub affinity : Bool
  pub discovered : GoMap String (List String)

-- `New`, without the defaults of base URLs and the key file of one type of provider.
pub new_upstream : Config.Provider → Upstream
new_upstream c = record {
  cfg = c;
  pool =
      set_fill_first (equal_fold c.key_strategy "fill_first")
        (set_weight c.weight (new_pool c.keys));
  health = record { consec_fails = 0; open_until = 0; inflight = pos 0; latency = 0 };
}

-- The loop over the providers of a configuration: the map and the order.
pub load_providers : List Config.Provider → GoMap String Upstream → GoMap String Upstream
load_providers [] m = m
load_providers (c ∷ cs) m = load_providers cs (put m c.name (new_upstream c))

pub compile_rule : Config.Rule → CompiledRule
compile_rule r =
    let strategy =
      if r.balance_strategy == "" && r.load_balance then "weighted" else r.balance_strategy in
    record {
      prefix = r.prefix;
      strip = r.strip_prefix;
      chain = r.chain;
      mmap = r.model_map;
      targets =
          map (λ (t : Config.RouteTarget). record { name = t.provider; model = t.model }) r.targets;
      load_balance = not (strategy == "");
      strategy = to_lower strategy;
    }

-- The inner loop of the sort: the rule to stand first, and those behind it.
pub exchange : CompiledRule → List CompiledRule → CompiledRule × List CompiledRule
exchange x [] = (x, [])
exchange x (r ∷ rs) =
    let longer = ltb (len x.prefix) (len r.prefix) in
    let (first, rest) = exchange (if longer then r else x) rs in
    (first, (if longer then x else r) ∷ rest)

-- The outer loop, with the rounds that are left: one for each rule is enough.
pub sort_rules : ℕ → List CompiledRule → List CompiledRule
sort_rules zero rs = rs
sort_rules (suc n) [] = []
sort_rules (suc n) (x ∷ rs) = let (first, rest) = exchange x rs in first ∷ sort_rules n rest

pub apply : Config.Routing → List Config.Provider → Registry
apply routing cs =
    let rules = map compile_rule routing.rules in
    record {
      providers = load_providers cs [];
      order = map (λ (c : Config.Provider). c.name) cs;
      rules = sort_rules (length rules) rules;
      def_chain = routing.default_chain;
      alias = routing.alias_claude_prefix;
      scenarios = routing.scenarios;
      affinity = routing.session_affinity;
      discovered = [];
    }

pub has_usable_provider : List Config.Provider → Bool
has_usable_provider [] = false
has_usable_provider (c ∷ cs) = if Config.usable c then true else has_usable_provider cs

-- `Swap` keeps the old registry, and reports an error, where no provider could be used.
pub swap : Config.Routing → List Config.Provider → Registry → Registry × Bool
unfolding has_usable_provider
swap routing cs old = if has_usable_provider cs then (apply routing cs, true) else (old, false)

pub record ResolveInfo : Type 0 where
  pub est_tokens : ℤ
  pub has_image : Bool
  pub thinking : Bool
  pub session_id : String

pub chain_targets : List String → String → List Target
chain_targets chain m = map (λ n. record { name = n; model = m }) chain

pub fnv_step : ℕ → List ℕ → ℕ
fnv_step h [] = h
fnv_step h (b ∷ bs) = fnv_step (bit_xor h b * 16777619 % 2 ^ 32) bs

pub fnv32 : String → ℕ
unfolding fnv_step
fnv32 s = fnv_step 2166136261 (bytes s)

pub sticky_rotate : List Target → String → List Target
sticky_rotate tg session_id = let off = fnv32 session_id % length tg in drop off tg ++ take off tg

-- An insertion sort from the left by a comparison that may draw random numbers: `sort.SliceStable`
-- on up to 20 elements. The sorted part is held with its last element first.
module _ {ℓ} {A : Type ℓ} (less : A → A → ℕ → Bool × ℕ) where
  pub insert_back : A → List A → ℕ → List A × ℕ
  insert_back x [] d = (x ∷ [], d)
  insert_back x (y ∷ ys) d =
      let (before, d') = less x y d in
      let (rest, d'') = insert_back x ys d' in if before then (y ∷ rest, d'') else (x ∷ y ∷ ys, d')

  pub sort_back : List A → List A → ℕ → List A × ℕ
  sort_back sorted [] d = (sorted, d)
  sort_back sorted (x ∷ xs) d =
      let (sorted', d') = insert_back x sorted d in sort_back sorted' xs d'

abbrev pub weight_of : GoMap String Upstream → String → ℤ
weight_of m n = elim (get m n) [ none ↦ pos 1 | some u ↦ u.cfg.weight ]

abbrev pub inflight_of : GoMap String Upstream → String → ℤ
inflight_of m n = elim (get m n) [ none ↦ pos 0 | some u ↦ u.health.inflight ]

abbrev pub latency_of : GoMap String Upstream → String → ℕ
latency_of m n = elim (get m n) [ none ↦ 0 | some u ↦ u.health.latency ]

-- `w <= 0` counts as 1
abbrev pub clamped : ℤ → ℕ
clamped w = if leb_ℤ w (pos 0) then 1 else pos_part w

-- `random` gives the draws of `rand.Float64` in units of 2^-53; the products are taken exactly.
module _ (random : ℕ → ℕ) (m : GoMap String Upstream) where
  pub weighted_less : Target → Target → ℕ → Bool × ℕ
  weighted_less a b d = (
    ltb (random (d + 1) * clamped (weight_of m b.name)) (random d * clamped (weight_of m a.name)),
    d + 2,
  )

  pub least_busy_less : Target → Target → ℕ → Bool × ℕ
  least_busy_less a b d =
      let ia = inflight_of m a.name in
      let ib = inflight_of m b.name in
      (
        if ltb_ℤ ia ib
            then true
            else if ltb_ℤ ib ia
            then false
            else ltb_ℤ (weight_of m b.name) (weight_of m a.name),
        d,
      )

  pub latency_less : Target → Target → ℕ → Bool × ℕ
  latency_less a b d =
      let la = latency_of m a.name in
      let lb = latency_of m b.name in
      (
        if ltb la lb
            then true
            else if ltb lb la
            then false
            else ltb_ℤ (weight_of m b.name) (weight_of m a.name),
        d,
      )
