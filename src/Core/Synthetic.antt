-- ===== src/Core/Synthetic.antt =====
-- internal/core/collect.go, `WriteSyntheticStream`: a whole message told as a stream, as a list of the
-- events of internal/core/stream.go.
pub mod Whole
pub mod Retell
mod Examples
use Prim.Native.String.{len, ◌++◌ as str_append}
use claude_code_gateway.Prelude.{
  ℕ, ◌+◌, String, Bool, List, [], ◌∷◌, ◌++◌, if◌then◌else◌, ◌==◌, string_eq,
}
use claude_code_gateway.Prelude.Int.{ℤ, pos, int_eq}
use claude_code_gateway.Core.Stream.{
  Event, message_start, text_start, tool_start, text_delta, json_delta, block_stop, message_delta,
  message_stop, first_non_empty, estimate_tokens,
}
use claude_code_gateway.Core.Collect.{Block, MessageResponse}

abbrev pub total_length : List Block → ℕ
total_length [] = 0
total_length (b ∷ bs) = len b.text + len b.input + total_length bs

abbrev pub told_input : String → String
told_input s = if s == "" then "{}" else s

unfoldable pub block_events : ℕ → Block → List Event
block_events i b =
    if b.kind == "tool_use"
    then tool_start i b.id b.name ∷ json_delta i (told_input b.input) ∷ block_stop i ∷ []
    else text_start i ∷ (if b.text == "" then [] else text_delta i b.text ∷ []) ++ block_stop i ∷ []

unfoldable pub content_events : ℕ → List Block → List Event
unfolding block_events
content_events i [] = []
content_events i (b ∷ bs) = block_events i b ++ content_events (i + 1) bs

abbrev pub out_tokens : MessageResponse → ℤ
out_tokens mr =
    if mr.output_tokens == pos 0
    then pos (estimate_tokens (total_length mr.content))
    else mr.output_tokens

-- `rand_hex` is used for a message without an identifier.
unfoldable pub synthetic_stream : (ℕ → ℕ → String) → MessageResponse → List Event
unfolding content_events
synthetic_stream rand_hex mr =
    message_start (first_non_empty mr.id (str_append "msg_" (rand_hex 12 0))) mr.model
        mr.input_tokens
      ∷ content_events 0 mr.content
    ++ message_delta (first_non_empty mr.stop_reason "end_turn") (out_tokens mr) mr.input_tokens
      ∷ message_stop
      ∷ []
