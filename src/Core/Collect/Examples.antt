-- ===== src/Core/Collect/Examples.antt =====
-- Runs of `CollectOpenAIStream` of internal/core/collect.go.
use claude_code_gateway.Prelude.{
  Option, if◌then◌else◌, ◌==◌, string_eq, ◌≡◌, refl, String, Bool, true, List, [], ◌∷◌, ◌++◌, some,
  none,
}
use claude_code_gateway.Prelude.Int.{ℤ, pos, int_eq}
use claude_code_gateway.Prelude.GoMap.{get, put}
use claude_code_gateway.Prelude.Text.{trim_space, has_prefix, trim_prefix}
use claude_code_gateway.Core.Stream.{
  Event, message_delta, message_stop, start, new_translator, finalize, read_line, stop_from_finish,
  sort_ints, estimate_tokens,
}
use claude_code_gateway.Core.Stream.Examples.{hex, says, calls, decode, lines}
use claude_code_gateway.Core.Collect.{nothing, response, collect_openai}
use claude_code_gateway.Core.Collect.Anthropic.{AnthEvent, finish, take_lines, new_collector}
use claude_code_gateway.Core.Collect.Agrees.{concat, texts_of, pieces, feed, gather, feed-gather}

abbrev accepts : String → Bool
accepts s = true

feed-gather_example :
    let t = finalize (
      feed hex
        (says "a" ∷ calls (pos 1) "look" "{}" ∷ says "b" ∷ [])
        (start (new_translator hex "m"))) in
    let c = gather hex (says "a" ∷ calls (pos 1) "look" "{}" ∷ says "b" ∷ []) nothing in
    let r = response hex decode accepts c in
    (concat (pieces t.out) ≡ concat (texts_of r.content))
    × (es : List Event) × (output : ℤ) × (t.out
        ≡ (es ++ message_delta r.stop_reason output r.input_tokens ∷ []) ++ message_stop ∷ [])
feed-gather_example =
    feed-gather hex decode accepts "m" (says "a" ∷ calls (pos 1) "look" "{}" ∷ says "b" ∷ [])

collects :
    collect_openai hex decode accepts lines true
    ≡ some (record {
      id = "msg_00";
      model = "m";
      content =
          record { kind = "text"; text = "hihi"; id = ""; name = ""; input = "" }
          ∷ record { kind = "tool_use"; text = ""; id = "toolu_00"; name = "look"; input = "{}x" }
          ∷ [];
      stop_reason = "tool_use";
      input_tokens = pos 0;
      output_tokens = pos 61;
      cache_read = pos 0;
      cache_creation = pos 0;
    })
unfolding collect_openai read_line trim_space has_prefix trim_prefix get put stop_from_finish
    sort_ints estimate_tokens
collects = refl

-- A stream whose one event ends a message for lack of tokens: the reason stands below "delta", where it
-- is not looked for.
abbrev decode_one : String → Option AnthEvent
decode_one p =
    if p == "cut"
    then some (record {
      kind = "message_delta";
      index = pos 0;
      message = none;
      content_block = none;
      delta = some (record { kind = ""; text = ""; partial_json = "" });
      stop_reason = "";
      usage = some (record {
        input_tokens = pos 3;
        output_tokens = pos 5;
        cache_read = pos 0;
        cache_creation = pos 0;
      });
    })
    else none

loses_reason :
    let m =
      finish accepts
        (take_lines accepts hex decode_one ("data: cut" ∷ []) (new_collector "msg_1")).1 in
    (m.stop_reason ≡ "end_turn") × (m.output_tokens ≡ pos 5)
unfolding finish take_lines read_line trim_space has_prefix trim_prefix
loses_reason = (refl, refl)
