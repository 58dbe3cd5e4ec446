-- ===== src/Core/Inbound/Examples.antt =====
-- A request of OpenAI's, with texts marked by a quotation mark and blocks by their first kind.
use Prim.Native.String.{◌++◌ as str_append}
use text.Mathlib.TextEquality.{eq_iff}
use claude_code_gateway.Prelude.{
  ◌≡◌, refl, ap, sym, ◌∙◌, inl, inr, arith, String, false, none, some, List, [], ◌∷◌, map,
  if◌then◌else◌, ◌==◌, string_eq, Bool-cases,
}
use claude_code_gateway.Prelude.Int.{pos}
use claude_code_gateway.Prelude.Text.{cut, cut_prefix, append-cut_prefix}
use claude_code_gateway.Core.Respond.{OaiToolCall}
use claude_code_gateway.Core.Request.{text_block_of, messages_of}
use claude_code_gateway.Core.Inbound.{
  InCodec, InMessage, InRequest, call_block, user_blocks, append_raw_text, read_messages,
  to_anthropic, message_in, parse_data_url, image_of,
}
use claude_code_gateway.Core.Inbound.Back.{
  Said, user_says, assistant_says, told, meant, IsFaithful, messages_of-to_anthropic,
}

abbrev call : OaiToolCall
call = record { id = "c1"; name = "look"; arguments = "{}" }

abbrev codec : InCodec
unfolding cut_prefix
codec = record {
  as_text = λ s. cut_prefix s "'";
  as_blocks = λ raw.
      if raw == "text"
      then some (text_block_of "hi" ∷ [])
      else if raw == "tool_use"
      then some (call_block call ∷ [])
      else none;
  as_parts = λ raw. none;
  encode_text = λ s. str_append "'" s;
  encode_blocks = λ bs. elim bs [ [] ↦ none | b ∷ more ↦ some b.kind ];
}

not_encoded : (s t : String) → cut_prefix t "'" ≡ none → (str_append "'" s == t) ≡ false
not_encoded s t h = elim (Bool-cases (str_append "'" s == t)) [
  | inl same ↦
      let e : some s ≡ none =
        sym (append-cut_prefix "'" s)
        ∙ ap (λ u. cut_prefix u "'") ((eq_iff (str_append "'" s) t).0 same)
        ∙ h in
      absurd (ground arith)
  | inr other ↦ other
]

codec-IsFaithful : IsFaithful codec
unfolding codec cut_prefix
codec-IsFaithful = record {
  text_back = λ s. append-cut_prefix "'" s;
  no_null = λ s. ground (arith, not_encoded s "" refl, not_encoded s "null" refl);
}

abbrev said : List Said
said = user_says "hi" ∷ assistant_says "" (call ∷ []) ∷ []

abbrev request : List InMessage → InRequest
request ms = record {
  model = "m";
  max_tokens = pos 0;
  messages = ms;
  stream = false;
  tools = [];
  tool_choice = "";
}

abbrev system_says : String → InMessage
system_says content = record {
  role = "system";
  content = content;
  tool_calls = [];
  tool_call_id = "";
}

program : Unit {0}
unfolding codec cut cut_prefix user_blocks append_raw_text read_messages to_anthropic message_in
    parse_data_url image_of
program = tt

joins_system :
    (to_anthropic codec (request (system_says "'a" ∷ system_says "'b" ∷ []))).system ≡ "'a\nb"
unfolding program
joins_system = refl

-- What a message of the system says in parts is lost next to one that is a text.
loses_parts :
    (to_anthropic codec (request (system_says "[parts]" ∷ system_says "'b" ∷ []))).system ≡ "'\nb"
unfolding program
loses_parts = refl

reads_data_url : parse_data_url "data:image/png;base64,AAAA" ≡ some ("image/png", "AAAA")
unfolding program
reads_data_url = refl

messages_of-to_anthropic_example :
    messages_of codec.as_text codec.as_blocks
      (λ n k. "")
      0
      (to_anthropic codec (request (map (told codec) said))).messages
    ≡ some (map meant said)
unfolding program
messages_of-to_anthropic_example =
    messages_of-to_anthropic codec (λ n k. "") (request (map (told codec) said)) said
      codec-IsFaithful refl
      (
        (refl, ("text", refl, refl, refl, refl)),
        ((((refl, refl), tt), ("tool_use", refl, refl, refl, refl)), tt),
      )
