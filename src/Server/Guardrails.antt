-- ===== src/Server/Guardrails.antt =====
-- internal/server/guardrails.go: what a request and an answer may hold. A compiled regular expression is
-- its text; whether one compiles, matches or rewrites a text, and decoding an answer, are parameters. A
-- nil `*guardrails` is `none`.
use claude_code_gateway.Prelude.{
  String, Bool, true, false, not, ◌&&◌, ◌||◌, List, [], ◌∷◌, Option, none, some, if◌then◌else◌,
  ◌==◌, string_eq,
}
use claude_code_gateway.Prelude.Int.{ℤ, pos, ltb_ℤ}
use claude_code_gateway.Prelude.Text.{to_lower}

pub record RailsConfig : Type 0 where
  pub max_input_tokens : ℤ
  pub blocked_patterns : List String
  pub denied_tools : List String
  pub pii_presets : List String
  pub injection_detection : String
  pub response_patterns : List String

pub record Guardrails : Type 0 where
  pub max_input : ℤ
  pub req_re : List String
  pub denied : List String
  pub resp_re : List String
  pub pii_re : List String
  pub inject_re : List String
  pub inj_mode : String

-- `piiPresets[name]`
abbrev pub pii_preset : String → Option String
pii_preset s =
    if s == "email"
    then some "[\\w.+-]+@[\\w-]+\\.[\\w.-]+"
    else if s == "phone"
    then some "(?:\\+7|8)[\\s\\-]?\\(?\\d{3}\\)?[\\s\\-]?\\d{3}[\\s\\-]?\\d{2}[\\s\\-]?\\d{2}"
    else if s == "card"
    then some "\\b(?:\\d[ -]?){13,16}\\b"
    else none

abbrev pub injection_patterns : List String
injection_patterns =
    "(?i)ignore\\s+(all\\s+)?(previous|prior|above|earlier)\\s+instructions"
    ∷ "(?i)disregard\\s+(all\\s+)?(previous|prior|your)\\s+(instructions|rules|prompt)"
    ∷ "(?i)reveal\\s+(your\\s+)?(system\\s+)?(prompt|instructions)"
    ∷ "(?i)you\\s+are\\s+now\\s+(a|an|no longer)" ∷ "(?i)<\\|im_start\\|>"
    ∷ "(?i)\\bsystem\\s*:\\s*you\\s+must\\b" ∷ []

-- The loops that compile: those patterns that do.
module _ (compiles : String → Bool) where
  unfoldable pub compile_all : List String → List String
  compile_all [] = []
  compile_all (p ∷ ps) = let rest = compile_all ps in if compiles p then p ∷ rest else rest

  unfoldable pub compile_presets : List String → List String
  compile_presets [] = []
  compile_presets (n ∷ ns) =
      let rest = compile_presets ns in
      elim (pii_preset (to_lower n)) [
        | none ↦ rest
        | some p ↦ if compiles p then p ∷ rest else rest
      ]

  unfoldable pub compile_guardrails : RailsConfig → Guardrails
  unfolding compile_all compile_presets
  compile_guardrails cfg =
      let mode = if cfg.injection_detection == "" then "off" else cfg.injection_detection in
      record {
        max_input = cfg.max_input_tokens;
        req_re = compile_all cfg.blocked_patterns;
        denied = cfg.denied_tools;
        resp_re = compile_all cfg.response_patterns;
        pii_re = compile_presets cfg.pii_presets;
        inject_re = if mode == "off" then [] else compile_all injection_patterns;
        inj_mode = mode;
      }

-- `g.denied[t]`
unfoldable pub listed : String → List String → Bool
listed s [] = false
listed s (t ∷ ts) = t == s || listed s ts

-- The loop over the tools of a request: the first that is denied.
unfoldable pub denied_tool : List String → List String → Option String
unfolding listed
denied_tool denied [] = none
denied_tool denied (t ∷ ts) =
    let rest = denied_tool denied ts in if listed t denied then some t else rest

unfoldable pub stream_scan_enabled : Option Guardrails → Bool
stream_scan_enabled none = false
stream_scan_enabled (some g) = elim g.resp_re [ [] ↦ false | r ∷ rs ↦ true ]

-- Why a request or an answer is refused. The texts of the messages are left out.
pub data Blocked : Type 0 where
  too_long : Blocked
  tool_denied : String → Blocked
  pattern_matched : String → Blocked
  injection : String → Blocked

-- A block of an answer: its type and text.
pub record ViewBlock : Type 0 where
  pub kind : String
  pub text : String

-- `matches` is `MatchString`.
module _ (matches : String → String → Bool) where
  unfoldable pub first_match : List String → String → Option String
  first_match [] text = none
  first_match (r ∷ rs) text =
      let rest = first_match rs text in if matches r text then some r else rest

  abbrev pub injected : String → Option String → Option Blocked
  injected mode none = none
  injected mode (some r) = if mode == "block" then some (injection r) else none

  abbrev pub check_patterns : Guardrails → String → Option Blocked
  check_patterns g text = elim (first_match g.req_re text) [
    | some r ↦ some (pattern_matched r)
    | none ↦
        if g.inj_mode == "off" then none else injected g.inj_mode (first_match g.inject_re text)
  ]

  -- `checkRequest`, for the names of the tools, the flat text and the estimate of tokens.
  unfoldable pub check_request : Option Guardrails → List String → String → ℤ → Option Blocked
  unfolding denied_tool first_match
  check_request none tools text est = none
  check_request (some g) tools text est =
      if ltb_ℤ (pos 0) g.max_input && ltb_ℤ g.max_input est
      then some too_long
      else elim (denied_tool g.denied tools) [
        | some t ↦ some (tool_denied t)
        | none ↦ check_patterns g text
      ]

  unfoldable pub check_blocks : List String → List ViewBlock → Option Blocked
  unfolding first_match
  check_blocks res [] = none
  check_blocks res (b ∷ bs) =
      let rest = check_blocks res bs in
      if not (b.kind == "text") || b.text == ""
      then rest
      else elim (first_match res b.text) [ some r ↦ some (pattern_matched r) | none ↦ rest ]

  -- `checkResponse`; `view` decodes the content of an answer.
  unfoldable pub check_response :
      (String → Option (List ViewBlock)) → Option Guardrails → String → Option Blocked
  unfolding check_blocks
  check_response view none body = none
  check_response view (some g) body = elim g.resp_re [
    | [] ↦ none
    | r ∷ rs ↦
        if body == ""
        then none
        else elim (view body) [ none ↦ none | some bs ↦ check_blocks (r ∷ rs) bs ]
  ]

-- The function that `redactPII` applies to a text; `replace` is `ReplaceAllString`.
unfoldable pub redact : (String → String → String) → List String → String → String
redact replace [] s = s
redact replace (r ∷ rs) s = redact replace rs (replace r s)
