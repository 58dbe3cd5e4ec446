-- ===== src/Core/Synthetic/Examples.antt =====
-- Runs of `WriteSyntheticStream` of internal/core/collect.go.
use claude_code_gateway.Prelude.{ℕ, ◌≡◌, String, [], ◌∷◌, map}
use claude_code_gateway.Prelude.Int.{pos}
use claude_code_gateway.Core.Stream.Closing.{IsWhole}
use claude_code_gateway.Core.Collect.{Block, MessageResponse}
use claude_code_gateway.Core.Synthetic.{synthetic_stream}
use claude_code_gateway.Core.Synthetic.Whole.{synthetic_stream-IsWhole}
use claude_code_gateway.Core.Synthetic.Retell.{retell, told, synthetic_stream-retell}

abbrev hex : ℕ → ℕ → String
hex n k = "00"

abbrev empty : Block
empty = record { kind = "text"; text = ""; id = ""; name = ""; input = "" }

abbrev message : MessageResponse
message = record {
  id = "msg_1";
  model = "m";
  content =
      record empty { text = "hi" }
      ∷ record { kind = "tool_use"; text = ""; id = "t1"; name = "look"; input = "" }
      ∷ empty
      ∷ [];
  stop_reason = "tool_use";
  input_tokens = pos 3;
  output_tokens = pos 0;
  cache_read = pos 0;
  cache_creation = pos 0;
}

synthetic_stream-IsWhole_example : IsWhole (synthetic_stream hex message)
synthetic_stream-IsWhole_example = synthetic_stream-IsWhole hex message

synthetic_stream-retell_example :
    retell empty (synthetic_stream hex message) ≡ map told message.content
synthetic_stream-retell_example = synthetic_stream-retell hex message empty
