-- ===== src/Config.antt =====
-- internal/config/config.go: the parsed file, the defaults that are filled in, and the checks that
-- a file must pass. Reading the file, expanding variables and YAML are left out, and so are the
-- fields that neither step looks at (prices, clients, guardrails, state, price sync).
pub mod Defaults
pub mod Validate
pub mod Examples
use claude_code_gateway.Prelude.{
  ℕ, suc, ◌+◌, ◌*◌, String, Bool, true, false, ◌&&◌, ◌||◌, not, List, [], ◌∷◌, map, Option, none,
  some, nat_beq, if◌then◌else◌, ◌==◌, string_eq, length,
}
use claude_code_gateway.Prelude.GoMap.{GoMap, get, put}
use claude_code_gateway.Prelude.Int.{ℤ, pos, negsuc, leb_ℤ}
use claude_code_gateway.Prelude.Time.{second, minute}

pub record Server : Type 0 where
  pub listen : String
  pub read_timeout : ℤ
  pub write_timeout : ℤ
  pub upstream_to : ℤ
  pub keep_alive_seconds : ℤ

pub record Provider : Type 0 where
  pub name : String
  pub kind : String
  pub base_url : String
  pub keys : List String
  pub auth_style : String
  pub anthropic_version : String
  pub timeout : ℤ
  pub discover_models : Bool
  pub refresh_interval : ℤ
  pub models : List String
  pub transformers : List String
  pub send_stream_options : Bool
  pub region : String
  pub service_account_json : String
  pub weight : ℤ
  pub key_strategy : String
  pub probe_interval : ℤ

pub record LongContextScenario : Type 0 where
  pub threshold_tokens : ℤ
  pub chain : List String

pub record ChainScenario : Type 0 where
  pub chain : List String

pub record Scenarios : Type 0 where
  pub long_context : Option LongContextScenario
  pub image : Option ChainScenario
  pub thinking : Option ChainScenario

pub record RouteTarget : Type 0 where
  pub provider : String
  pub model : String

pub record Rule : Type 0 where
  pub prefix : String
  pub strip_prefix : Bool
  pub chain : List String
  pub model_map : GoMap String String
  pub targets : List RouteTarget
  pub load_balance : Bool
  pub balance_strategy : String

pub record Routing : Type 0 where
  pub default_chain : List String
  pub alias_claude_prefix : Bool
  pub rules : List Rule
  pub scenarios : Scenarios
  pub session_affinity : Bool
  pub free_only : Bool
  pub free_models : List String

pub record Retry : Type 0 where
  pub max_attempts : ℤ
  pub retry_statuses : List ℕ
  pub key_fail_status : List ℕ

pub record Logging : Type 0 where
  pub file : String
  pub ring_size : ℤ

pub record CacheConfig : Type 0 where
  pub enabled : Bool
  pub ttl : ℤ
  pub max_entries : ℤ

pub record Webhook : Type 0 where
  pub url : String
  pub timeout : ℤ

pub record Config : Type 0 where
  pub server : Server
  pub providers : List Provider
  pub routing : Routing
  pub retry : Retry
  pub logging : Logging
  pub cache : CacheConfig
  pub webhooks : List Webhook

-- `if v == "" { v = d }`, and the two tests on numbers.
abbrev pub or_default : String → String → String
or_default v d = if v == "" then d else v

abbrev pub is_zero : ℤ → Bool
is_zero (pos n) = nat_beq n 0
is_zero (negsuc n) = false

abbrev pub if_zero : ℤ → ℤ → ℤ
if_zero v d = if is_zero v then d else v

abbrev pub if_not_positive : ℤ → ℤ → ℤ
if_not_positive v d = if leb_ℤ v (pos 0) then d else v

abbrev pub if_none : List ℕ → List ℕ → List ℕ
if_none [] d = d
if_none (x ∷ xs) d = x ∷ xs

default_server : Server → Server
default_server s = record s {
  listen = or_default s.listen ":8080";
  read_timeout = if_zero s.read_timeout (pos (120 * second));
  write_timeout = if_zero s.write_timeout (pos (15 * minute));
  upstream_to = if_zero s.upstream_to (pos (10 * minute));
}

default_retry : Retry → Retry
default_retry r = record {
  max_attempts = if_not_positive r.max_attempts (pos 8);
  retry_statuses = if_none r.retry_statuses (408 ∷ 409 ∷ 429 ∷ 500 ∷ 502 ∷ 503 ∷ 504 ∷ 529 ∷ []);
  key_fail_status = if_none r.key_fail_status (401 ∷ 403 ∷ []);
}

default_logging : Logging → Logging
default_logging l = record {
  file = or_default l.file "data/usage.jsonl";
  ring_size = if_not_positive l.ring_size (pos 500);
}

default_cache : CacheConfig → CacheConfig
default_cache c = record c {
  ttl = if_not_positive c.ttl (pos (10 * minute));
  max_entries = if_not_positive c.max_entries (pos 128);
}

default_webhook : Webhook → Webhook
default_webhook w = record w { timeout = if_not_positive w.timeout (pos (5 * second)) }

default_chain : List Provider → List String → List String
default_chain (p ∷ ps) [] = p.name ∷ []
default_chain [] [] = []
default_chain ps (n ∷ ns) = n ∷ ns

-- `upstream` is the server's timeout after its own default.
default_provider : ℤ → Provider → Provider
default_provider upstream p = record p {
  timeout = if_zero p.timeout upstream;
  refresh_interval = if_zero p.refresh_interval (pos (30 * minute));
  anthropic_version = or_default p.anthropic_version "2023-06-01";
  auth_style = or_default p.auth_style "x-api-key";
}

pub apply_defaults : Config → Config
apply_defaults c =
    let server = default_server c.server in
    record {
      server = server;
      providers = map (default_provider server.upstream_to) c.providers;
      routing = record c.routing {
        default_chain = default_chain c.providers c.routing.default_chain;
      };
      retry = default_retry c.retry;
      logging = default_logging c.logging;
      cache = default_cache c.cache;
      webhooks = map default_webhook c.webhooks;
    }

pub data Error : Type 0 where
  empty_name : Error
  duplicate_name : String → Error
  unknown_type : String → String → Error
  base_url_required : String → Error
  no_api_key : Error
  unknown_in_default_chain : String → Error
  unknown_in_rule : ℕ → String → Error
  url_required : ℕ → Error

pub known_type : String → Bool
known_type t =
    t == "anthropic"
    || t == "anthropic-compat"
    || t == "openai"
    || t == "bedrock"
    || t == "vertex"
    || t == "antigravity"

-- `n > 0`, for the count `n` of keys that are not empty
abbrev pub has_key : List String → Bool
has_key [] = false
has_key (k ∷ ks) = if k == "" then has_key ks else true

pub usable : Provider → Bool
usable p = has_key p.keys || p.kind == "vertex" && p.auth_style == "sa"

-- `names[n]`: the zero value where the key is missing
abbrev pub known : GoMap String Bool → String → Bool
known names n = elim (get names n) [ none ↦ false | some b ↦ b ]

-- What a loop of `validate` ends with: an error, or its results.
pub data Checked {ℓ} (A : Type ℓ) : Type ℓ where
  fine : A → Checked A
  bad : Error → Checked A

-- The loop over the providers: the names seen, and whether one can be used.
pub check_providers : List Provider → GoMap String Bool → Bool → Checked (GoMap String Bool × Bool)
check_providers [] names has_valid = fine (names, has_valid)
check_providers (p ∷ ps) names has_valid =
    let rest = check_providers ps (put names p.name true) (if usable p then true else has_valid) in
    if p.name == ""
    then bad empty_name
    else if known names p.name
    then bad (duplicate_name p.name)
    else if not (known_type p.kind)
    then bad (unknown_type p.name p.kind)
    else if p.base_url == ""
    then bad (base_url_required p.name)
    else rest

-- `checkChains`
pub check_chain : GoMap String Bool → (String → Error) → List String → Option Error
check_chain names what [] = none
check_chain names what (n ∷ ns) = if known names n then check_chain names what ns else some (what n)

pub check_rules : GoMap String Bool → ℕ → List Rule → Option Error
check_rules names i [] = none
check_rules names i (r ∷ rs) =
    let rest = check_rules names (i + 1) rs in
    elim (check_chain names (unknown_in_rule i) r.chain) [ none ↦ rest | some e ↦ some e ]

pub check_webhooks : ℕ → List Webhook → Option Error
check_webhooks i [] = none
check_webhooks i (w ∷ ws) = if w.url == "" then some (url_required i) else check_webhooks (i + 1) ws

-- What follows the loop over the providers.
pub check_routing : Config → GoMap String Bool → Bool → Option Error
check_routing c names false = some no_api_key
check_routing c names true =
    elim (check_chain names unknown_in_default_chain c.routing.default_chain) [
      | some e ↦ some e
      | none ↦ elim (check_rules names 0 c.routing.rules) [
        | some e ↦ some e
        | none ↦ check_webhooks 0 c.webhooks
      ]
    ]

-- `none` is success.
pub validate : Config → Option Error
unfolding check_providers check_routing check_rules check_chain check_webhooks
validate c = elim (check_providers c.providers [] false) [
  | bad e ↦ some e
  | fine (names, has_valid) ↦ check_routing c names has_valid
]
