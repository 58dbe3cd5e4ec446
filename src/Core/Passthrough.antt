-- ===== src/Core/Passthrough.antt =====
-- internal/core/stream.go: a stream of Anthropic's events passed on as it is, with the usage read off it.
-- Decoding the payload of a line is a parameter.
use Prim.Native.String.{◌++◌ as str_append}
use claude_code_gateway.Prelude.{
  String, not, List, [], ◌∷◌, Option, none, some, if◌then◌else◌, ◌==◌, string_eq,
}
use claude_code_gateway.Prelude.Int.{pos, ltb_ℤ}
use claude_code_gateway.Prelude.Text.{has_prefix, trim_prefix, trim_space}
use claude_code_gateway.Core.Collect.Anthropic.{Usage}

-- `usageSniffer`; of its message only the usage is kept.
pub record Sniffed : Type 0 where
  pub message : Option Usage
  pub usage : Option Usage
  pub kind : String

abbrev pub no_usage : Usage
no_usage = record {
  input_tokens = pos 0;
  output_tokens = pos 0;
  cache_read = pos 0;
  cache_creation = pos 0;
}

abbrev pub of_message : Option Usage → Usage → Usage
of_message none u = u
of_message (some m) u = record u {
  input_tokens = m.input_tokens;
  cache_read = m.cache_read;
  cache_creation = m.cache_creation;
}

abbrev pub of_event : String → Option Usage → Usage → Usage
of_event kind none u = u
of_event kind (some v) u =
    if kind == "message_start"
    then record u { input_tokens = v.input_tokens }
    else if ltb_ℤ (pos 0) v.output_tokens
    then record u { output_tokens = v.output_tokens }
    else u

unfoldable pub sniff : (String → Option Sniffed) → String → Usage → Usage
sniff decode raw u =
    let line = trim_space raw in
    if not (has_prefix line "data:") then u else elim (decode (trim_prefix line "data:")) [
      | none ↦ u
      | some sn ↦ of_event sn.kind sn.usage (of_message sn.message u)
    ]

-- The loop over the lines: what is written, and the usage.
unfoldable pub passthrough : (String → Option Sniffed) → List String → Usage → List String × Usage
unfolding sniff
passthrough decode [] u = ([], u)
passthrough decode (l ∷ ls) u =
    let (written, u') = passthrough decode ls (sniff decode l u) in
    (str_append l "\n" ∷ written, u')
