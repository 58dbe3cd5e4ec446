-- ===== src/Core/Respond/Examples.antt =====
-- Runs of internal/core/translate_resp.go and internal/core/openai_outbound.go.
use claude_code_gateway.Prelude.{ℕ, String, ◌≡◌, refl, [], ◌∷◌, none, some, string_eq}
use claude_code_gateway.Prelude.Int.{pos, ◌+ℤ◌}
use claude_code_gateway.Prelude.Text.{cut_prefix}
use claude_code_gateway.Core.Stream.{OaiUsage, stop_from_finish}
use claude_code_gateway.Core.Respond.{
  OaiToolCall, parts, translate_response, to_openai, rename_id, read_blocks, finish_of,
  content_blocks, call_blocks, part_blocks, message_blocks,
}
use claude_code_gateway.Core.Respond.Again.{
  as_reply, reply_of, SameAnswer, to_openai-translate_response,
}

program : Unit {0}
unfolding translate_response to_openai rename_id read_blocks finish_of content_blocks call_blocks
    part_blocks message_blocks stop_from_finish cut_prefix ◌+ℤ◌
program = tt

abbrev random : ℕ → ℕ → String
random n k = "00"

abbrev call : OaiToolCall
call = record { id = "call_1"; name = "read"; arguments = "{\"path\":\"a\"}" }

abbrev usage : OaiUsage
usage = record { prompt_tokens = pos 5; completion_tokens = pos 7 }

-- A text in two parts comes back as two lines.
two_parts :
    (to_openai (
      translate_response random
        (record {
          model = "m";
          choices =
              record {
                message = some (record { content = parts ("a" ∷ "" ∷ "b" ∷ []); tool_calls = [] });
                finish_reason = none;
              }
              ∷ [];
          usage = none;
        })
        "m")).content
    ≡ "a\nb"
unfolding program
two_parts = refl

renamed : rename_id "msg_00" ≡ "chatcmpl-00"
unfolding program
renamed = refl

to_openai-translate_response_example :
    let first =
      translate_response random (reply_of "m" "hi" (call ∷ []) (some "tool_calls") usage) "x" in
    ((to_openai first).content ≡ "hi")
    × ((to_openai first).tool_calls ≡ call ∷ [])
    × ((to_openai first).model ≡ "m")
    × ((to_openai first).prompt_tokens ≡ usage.prompt_tokens)
    × ((to_openai first).completion_tokens ≡ usage.completion_tokens)
    × SameAnswer (translate_response random (as_reply (to_openai first)) "y") first
to_openai-translate_response_example =
    to_openai-translate_response random "m" "hi" (call ∷ []) (some "tool_calls") usage "x" "y"
      (record { named = refl; given = refl; object = refl }, tt) refl
