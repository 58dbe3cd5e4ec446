-- ===== src/Core/Stream/Examples.antt =====
-- Runs of internal/core/stream.go, with chunks that are decoded from one word.
use claude_code_gateway.Prelude.{
  ℕ, ◌≡◌, refl, String, true, false, List, [], ◌∷◌, Option, none, some, inl, if◌then◌else◌, ◌==◌,
  string_eq,
}
use claude_code_gateway.Prelude.Int.{ℤ, pos, int_eq}
use claude_code_gateway.Core.Stream.{
  OaiChunk, message_start, text_start, tool_start, text_delta, json_delta, block_stop,
  message_delta, message_stop, translate_stream, read_line, stop_from_finish,
}
use claude_code_gateway.Prelude.Text.{trim_space, has_prefix, trim_prefix}
use claude_code_gateway.Prelude.GoMap.{get, put}
use claude_code_gateway.Core.Stream.Monitor.{silence, hear_all}
use claude_code_gateway.Core.Stream.Closing.{IsWhole}
use claude_code_gateway.Core.Stream.Whole.{translate_stream-IsWhole, translate_stream_headless}

abbrev pub hex : ℕ → ℕ → String
hex n k = "00"

abbrev pub says : String → OaiChunk
says s = record {
  model = "m";
  choices =
      record { delta = some (record { content = s; tool_calls = [] }); finish_reason = none } ∷ [];
  usage = none;
}

abbrev pub calls : ℤ → String → String → OaiChunk
calls i name arguments = record {
  model = "m";
  choices =
      record {
        delta = some (record {
          content = "";
          tool_calls = record { index = i; id = ""; name = name; arguments = arguments } ∷ [];
        });
        finish_reason = some "tool_calls";
      }
      ∷ [];
  usage = none;
}

abbrev pub decode : String → Option OaiChunk
decode s =
    if s == "hi"
    then some (says "hi")
    else if s == "look"
    then some (calls (pos 1) "look" "{}")
    else if s == "more"
    then some (calls (pos 1) "" "x")
    else none

abbrev pub lines : List String
lines = "data: hi" ∷ ": comment" ∷ "data:look" ∷ "data: hi" ∷ "data: more" ∷ "data: [DONE]" ∷ []

translate_stream-IsWhole_example : IsWhole (translate_stream hex decode lines false "m").out
translate_stream-IsWhole_example = translate_stream-IsWhole hex decode lines false "m" (inl refl)

translate_stream_headless_example :
    ((translate_stream hex decode [] true "m").out
      ≡ message_delta "end_turn" (pos 0) (pos 0) ∷ message_stop ∷ [])
    × (hear_all (translate_stream hex decode [] true "m").out silence ≡ none)
translate_stream_headless_example = translate_stream_headless hex decode [] "m" refl

-- Text that follows a tool stands in a block of its own, before the tool's block is stopped.
interleaves :
    (translate_stream hex decode lines false "m").out
    ≡ message_start "msg_00" "m" (pos 0)
      ∷ text_start 0
      ∷ text_delta 0 "hi"
      ∷ block_stop 0
      ∷ tool_start 1 "toolu_00" "look"
      ∷ json_delta 1 "{}"
      ∷ text_start 2
      ∷ text_delta 2 "hi"
      ∷ json_delta 1 "x"
      ∷ block_stop 2
      ∷ block_stop 1
      ∷ message_delta "tool_use" (pos 61) (pos 0)
      ∷ message_stop
      ∷ []
unfolding translate_stream read_line trim_space has_prefix trim_prefix get put stop_from_finish
interleaves = refl
