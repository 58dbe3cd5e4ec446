-- ===== src/Server/Overrides.antt =====
-- internal/server/overrides.go: what the headers of a request change for it. `strconv.Atoi` and decoding
-- JSON objects are parameters; a header that is not sent is an empty text.
use claude_code_gateway.Prelude.{
  ℕ, ◌*◌, String, Bool, ◌||◌, Option, none, some, if◌then◌else◌, ◌==◌, string_eq, length, leb,
}
use claude_code_gateway.Prelude.GoMap.{GoMap}
use claude_code_gateway.Prelude.Int.{ℤ, pos, ltb_ℤ, pos_part}
use claude_code_gateway.Prelude.Text.{to_lower, trim_space}
use claude_code_gateway.Prelude.Time.{second}

pub record Overrides : Type 0 where
  pub skip_cache : Bool
  pub ttl_override : ℕ
  pub custom_key : String
  pub collect_log : Bool
  pub max_attempts : ℕ
  pub metadata : Option (GoMap String String)

-- `headerBool` of a header's value.
unfoldable pub header_bool : String → Bool
header_bool h = let v = trim_space (to_lower h) in v == "1" || v == "true" || v == "yes"

abbrev pub positive : Option ℤ → ℕ
positive none = 0
positive (some n) = if ltb_ℤ (pos 0) n then pos_part n else 0

abbrev pub small : Option (GoMap String String) → Option (GoMap String String)
small none = none
small (some md) = if leb (length md) 5 then some md else none

-- The values of an object are their texts.
module _ (atoi : String → Option ℤ) (decode : String → Option (GoMap String String)) where
  unfoldable pub parse_overrides : (String → String) → Overrides
  unfolding header_bool
  parse_overrides header =
      let ttl = header "x-ccg-cache-ttl" in
      let log = header "x-ccg-collect-log" in
      let attempts = header "x-ccg-max-attempts" in
      let md = header "x-ccg-metadata" in
      let n = if attempts == "" then 0 else positive (atoi attempts) in
      record {
        skip_cache = header_bool (header "x-ccg-skip-cache");
        ttl_override = if ttl == "" then 0 else positive (atoi ttl) * second;
        custom_key = trim_space (header "x-ccg-cache-key");
        collect_log = trim_space log == "" || header_bool log;
        max_attempts = if leb n 10 then n else 10;
        metadata = if md == "" then none else small (decode md);
      }
