-- ===== src/Config/Defaults.antt =====
-- internal/config/config.go, `applyDefaults`.
use claude_code_gateway.Prelude.{
  ℕ, ◌<◌, ◌≡◌, ◌≢◌, refl, String, List, [], ◌∷◌, map, string_eq, arith, All,
}
use text.Mathlib.TextEquality.{eq_iff}
use claude_code_gateway.Prelude.Int.{ℤ, pos, ◌<ℤ◌}
use claude_code_gateway.Config
use claude_code_gateway.Config.{
  Config, apply_defaults, or_default, if_zero, if_not_positive, if_none,
}

or_default_idem : (v d : String) → or_default (or_default v d) d ≡ or_default v d
or_default_idem v d = ground (arith, eq_iff v "", eq_iff d "")

if_zero_idem : (v d : ℤ) → if_zero (if_zero v d) d ≡ if_zero v d
if_zero_idem v d = ground arith

if_not_positive_idem : (v d : ℤ) → if_not_positive (if_not_positive v d) d ≡ if_not_positive v d
if_not_positive_idem v d = ground arith

if_none_idem : (v d : List ℕ) → if_none (if_none v d) d ≡ if_none v d
if_none_idem [] [] = refl
if_none_idem [] (x ∷ d) = refl
if_none_idem (x ∷ v) d = refl

ruleset idem = (or_default_idem, if_zero_idem, if_not_positive_idem, if_none_idem)

default_provider_idem :
    (u : ℤ) (p : Config.Provider)
    → Config.default_provider u (Config.default_provider u p) ≡ Config.default_provider u p
unfolding Config.default_provider
default_provider_idem u p = simp idem

map_idem {ℓ} :
    {A : Type ℓ} (f : A → A) (xs : List A) → ((x : A) → f (f x) ≡ f x) → map f (map f xs) ≡ map f xs
map_idem f [] h = refl
map_idem f (x ∷ xs) h = ground (arith, h x, map_idem f xs h)

default_webhook_idem :
    (w : Config.Webhook)
    → Config.default_webhook (Config.default_webhook w) ≡ Config.default_webhook w
unfolding Config.default_webhook
default_webhook_idem w = simp idem

default_chain_idem :
    (u : ℤ) (ps : List Config.Provider) (ns : List String)
    → Config.default_chain (map (Config.default_provider u) ps) (Config.default_chain ps ns)
      ≡ Config.default_chain ps ns
unfolding Config.default_chain
default_chain_idem u [] [] = refl
default_chain_idem u [] (n ∷ ns) = refl
default_chain_idem u (p ∷ ps) [] = refl
default_chain_idem u (p ∷ ps) (n ∷ ns) = refl

default_server_idem :
    (s : Config.Server) → Config.default_server (Config.default_server s) ≡ Config.default_server s
unfolding Config.default_server
default_server_idem s = simp idem

default_retry_idem :
    (r : Config.Retry) → Config.default_retry (Config.default_retry r) ≡ Config.default_retry r
unfolding Config.default_retry
default_retry_idem r = simp idem

default_logging_idem :
    (l : Config.Logging)
    → Config.default_logging (Config.default_logging l) ≡ Config.default_logging l
unfolding Config.default_logging
default_logging_idem l = simp idem

default_cache_idem :
    (c : Config.CacheConfig)
    → Config.default_cache (Config.default_cache c) ≡ Config.default_cache c
unfolding Config.default_cache
default_cache_idem c = simp idem

map-default_provider_idem :
    (u : ℤ) (ps : List Config.Provider)
    → map (Config.default_provider u) (map (Config.default_provider u) ps)
      ≡ map (Config.default_provider u) ps
map-default_provider_idem u ps = map_idem (Config.default_provider u) ps (default_provider_idem u)

map-default_webhook_idem :
    (ws : List Config.Webhook)
    → map Config.default_webhook (map Config.default_webhook ws) ≡ map Config.default_webhook ws
map-default_webhook_idem ws = map_idem Config.default_webhook ws default_webhook_idem

-- Filling in the defaults a second time changes nothing: what is set is kept.
pub apply_defaults_idem : (c : Config) → apply_defaults (apply_defaults c) ≡ apply_defaults c
unfolding apply_defaults
apply_defaults_idem c = simp (
  default_server_idem, default_retry_idem, default_logging_idem, default_cache_idem,
  map-default_provider_idem, map-default_webhook_idem, default_chain_idem,
)

-- What the rest of the program relies on.
pub record IsComplete (c : Config) : Type 0 where
  pub attempts : pos 0 <ℤ c.retry.max_attempts
  pub ring : pos 0 <ℤ c.logging.ring_size
  pub cache_ttl : pos 0 <ℤ c.cache.ttl
  pub cache_size : pos 0 <ℤ c.cache.max_entries
  pub statuses : c.retry.retry_statuses ≢ []
  pub key_statuses : c.retry.key_fail_status ≢ []
  pub provider_timeouts : All (λ (p : Config.Provider). p.timeout ≢ pos 0) c.providers
  pub webhook_timeouts : All (λ (w : Config.Webhook). pos 0 <ℤ w.timeout) c.webhooks
  pub chain : c.providers ≢ [] → c.routing.default_chain ≢ []

if_zero_ne : (v : ℤ) (n : ℕ) → 0 < n → if_zero v (pos n) ≢ pos 0
if_zero_ne v n h = ground arith

if_not_positive_pos : (v : ℤ) (n : ℕ) → 0 < n → pos 0 <ℤ if_not_positive v (pos n)
if_not_positive_pos v n h = ground arith

if_zero_keeps : (v d : ℤ) → d ≢ pos 0 → if_zero v d ≢ pos 0
if_zero_keeps v d h = ground arith

providers_complete :
    (u : ℤ) (ps : List Config.Provider)
    → u ≢ pos 0
    → All (λ (p : Config.Provider). p.timeout ≢ pos 0) (map (Config.default_provider u) ps)
unfolding Config.default_provider
providers_complete u [] h = tt
providers_complete u (p ∷ ps) h = (if_zero_keeps p.timeout u h, providers_complete u ps h)

webhooks_complete :
    (ws : List Config.Webhook)
    → All (λ (w : Config.Webhook). pos 0 <ℤ w.timeout) (map Config.default_webhook ws)
unfolding Config.default_webhook
webhooks_complete [] = tt
webhooks_complete (w ∷ ws) = (if_not_positive_pos w.timeout _ (omega arith), webhooks_complete ws)

chain_complete :
    (u : ℤ) (ps : List Config.Provider) (ns : List String)
    → map (Config.default_provider u) ps ≢ []
    → Config.default_chain ps ns ≢ []
unfolding Config.default_chain
chain_complete u [] [] h = absurd (h refl)
chain_complete u [] (n ∷ ns) h = ground arith
chain_complete u (p ∷ ps) [] h = ground arith
chain_complete u (p ∷ ps) (n ∷ ns) h = ground arith

if_none_complete : (v : List ℕ) (x : ℕ) (d : List ℕ) → if_none v (x ∷ d) ≢ []
if_none_complete [] x d = ground arith
if_none_complete (y ∷ v) x d = ground arith

-- With the defaults filled in there are attempts to make, room in the ring and in the cache,
-- statuses to retry on, timeouts for every provider and webhook, and a default chain if there is a
-- provider.
pub apply_defaults-IsComplete : (c : Config) → IsComplete (apply_defaults c)
unfolding apply_defaults Config.default_retry Config.default_logging Config.default_cache
    Config.default_server
apply_defaults-IsComplete c = record {
  attempts = if_not_positive_pos c.retry.max_attempts 8 (omega arith);
  ring = if_not_positive_pos c.logging.ring_size 500 (omega arith);
  cache_ttl = if_not_positive_pos c.cache.ttl _ (omega arith);
  cache_size = if_not_positive_pos c.cache.max_entries 128 (omega arith);
  statuses = if_none_complete c.retry.retry_statuses _ _;
  key_statuses = if_none_complete c.retry.key_fail_status _ _;
  provider_timeouts =
      providers_complete _ c.providers (if_zero_ne c.server.upstream_to _ (omega arith));
  webhook_timeouts = webhooks_complete c.webhooks;
  chain = chain_complete _ c.providers c.routing.default_chain;
}
