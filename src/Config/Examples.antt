-- ===== src/Config/Examples.antt =====
-- Runs of internal/config/config.go on small configurations.
use claude_code_gateway.Prelude.{◌≡◌, ◌↔◌, refl, String, true, false, [], ◌∷◌, some, none, List}
use claude_code_gateway.Prelude.GoMap.{get, put}
use claude_code_gateway.Prelude.Int.{pos, negsuc}
use claude_code_gateway.Config
use claude_code_gateway.Config.{
  Config, apply_defaults, validate, check_providers, check_chain, check_rules, check_webhooks,
  check_routing, known_type, usable, default_server, default_retry, default_logging, default_cache,
  default_webhook, default_chain, default_provider, unknown_in_rule, duplicate_name,
}
use claude_code_gateway.Config.Defaults.{IsComplete, apply_defaults-IsComplete}
use claude_code_gateway.Config.Validate.{IsSound, validate-IsSound}

program : Unit {0}
unfolding apply_defaults validate check_providers check_chain check_rules check_webhooks
    check_routing known_type usable default_server default_retry default_logging default_cache
    default_webhook default_chain default_provider get put
program = tt

abbrev pub provider : String → List String → Config.Provider
provider name keys = record {
  name = name;
  kind = "anthropic";
  base_url = "https://api.example.com";
  keys = keys;
  auth_style = "";
  anthropic_version = "";
  timeout = pos 0;
  discover_models = false;
  refresh_interval = pos 0;
  models = [];
  transformers = [];
  send_stream_options = false;
  region = "";
  service_account_json = "";
  weight = pos 1;
  key_strategy = "";
  probe_interval = pos 0;
}

abbrev pub rule : List String → Config.Rule
rule chain = record {
  prefix = "claude-";
  strip_prefix = false;
  chain = chain;
  model_map = [];
  targets = [];
  load_balance = false;
  balance_strategy = "";
}

abbrev pub config : List Config.Provider → List Config.Rule → Config
config ps rs = record {
  server = record {
    listen = "";
    read_timeout = pos 0;
    write_timeout = pos 0;
    upstream_to = pos 0;
    keep_alive_seconds = pos 0;
  };
  providers = ps;
  routing = record {
    default_chain = [];
    alias_claude_prefix = true;
    rules = rs;
    scenarios = record { long_context = none; image = none; thinking = none };
    session_affinity = false;
    free_only = false;
    free_models = [];
  };
  retry = record { max_attempts = negsuc 0; retry_statuses = []; key_fail_status = [] };
  logging = record { file = ""; ring_size = pos 0 };
  cache = record { enabled = true; ttl = pos 0; max_entries = pos 0 };
  webhooks = record { url = "https://hook.example.com"; timeout = pos 0 } ∷ [];
}

abbrev pub small : Config
small = config (provider "a" ("" ∷ []) ∷ provider "b" ("key" ∷ []) ∷ []) (rule ("b" ∷ []) ∷ [])

passes : validate (apply_defaults small) ≡ none
unfolding program
passes = refl

first_is_default : (apply_defaults small).routing.default_chain ≡ "a" ∷ []
unfolding program
first_is_default = refl

rejects_rule :
    validate (config (provider "b" ("key" ∷ []) ∷ []) (rule ("b" ∷ []) ∷ rule ("c" ∷ []) ∷ []))
    ≡ some (unknown_in_rule 1 "c")
unfolding program
rejects_rule = refl

rejects_duplicate :
    validate (config (provider "b" [] ∷ provider "b" ("key" ∷ []) ∷ []) [])
    ≡ some (duplicate_name "b")
unfolding program
rejects_duplicate = refl

apply_defaults-IsComplete_example : IsComplete (apply_defaults small)
apply_defaults-IsComplete_example = apply_defaults-IsComplete small

validate-IsSound_example : (validate (apply_defaults small) ≡ none) ↔ IsSound (apply_defaults small)
validate-IsSound_example = validate-IsSound (apply_defaults small)
