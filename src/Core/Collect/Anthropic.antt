-- ===== src/Core/Collect/Anthropic.antt =====
-- internal/core/collect.go, `CollectAnthropicStream`: a stream of Anthropic's events collected into one
-- message. Decoding an event is a parameter.
use Prim.Native.String.{◌++◌ as str_append}
use claude_code_gateway.Prelude.{
  ℕ, String, Bool, true, false, not, ◌&&◌, ◌||◌, List, [], ◌∷◌, ◌++◌, Option, none, some,
  if◌then◌else◌, ◌==◌, string_eq,
}
use claude_code_gateway.Prelude.GoMap.{GoMap, get, put}
use claude_code_gateway.Prelude.Int.{ℤ, pos, ltb_ℤ, int_eq}
use claude_code_gateway.Core.Stream.{first_non_empty, sort_ints, skipped, done, payload, read_line}
use claude_code_gateway.Core.Collect.{Block, MessageResponse, joined}

pub record Usage : Type 0 where
  pub input_tokens : ℤ
  pub output_tokens : ℤ
  pub cache_read : ℤ
  pub cache_creation : ℤ

pub record AnthDelta : Type 0 where
  pub kind : String
  pub text : String
  pub partial_json : String

-- The struct that the closure decodes into; of a block and of a message it has the fields it reads.
pub record AnthEvent : Type 0 where
  pub kind : String
  pub index : ℤ
  pub message : Option MessageResponse
  pub content_block : Option Block
  pub delta : Option AnthDelta
  pub stop_reason : String
  pub usage : Option Usage

pub record AnthCollector : Type 0 where
  pub blocks : GoMap ℤ Block
  pub inputs : GoMap ℤ (List String)
  pub order : List ℤ
  pub mr : MessageResponse

abbrev pub take_message : Option MessageResponse → AnthCollector → AnthCollector
take_message none ac = ac
take_message (some m) ac = record ac {
  mr = record ac.mr {
    id = first_non_empty m.id ac.mr.id;
    model = m.model;
    input_tokens = m.input_tokens;
    cache_read = m.cache_read;
    cache_creation = m.cache_creation;
  };
}

abbrev pub take_block : ℤ → Option Block → AnthCollector → AnthCollector
take_block i none ac = ac
take_block i (some b) ac = record ac {
  blocks =
      put ac.blocks i (record { kind = b.kind; text = ""; id = b.id; name = b.name; input = "" });
  inputs = put ac.inputs i [];
  order = ac.order ++ i ∷ [];
}

abbrev pub take_delta :
    ℤ → Option Block → Option (List String) → Option AnthDelta → AnthCollector → AnthCollector
take_delta i none buf d ac = ac
take_delta i (some b) none d ac = ac
take_delta i (some b) (some buf) none ac = ac
take_delta i (some b) (some buf) (some d) ac =
    if d.kind == "text_delta"
    then record ac { blocks = put ac.blocks i (record b { text = str_append b.text d.text }) }
    else if d.kind == "input_json_delta"
    then record ac { inputs = put ac.inputs i (buf ++ d.partial_json ∷ []) }
    else ac

abbrev pub take_usage : Option Usage → MessageResponse → MessageResponse
take_usage none mr = mr
take_usage (some u) mr =
    if ltb_ℤ (pos 0) u.output_tokens then record mr { output_tokens = u.output_tokens } else mr

abbrev pub take_reason : String → MessageResponse → MessageResponse
take_reason s mr = if s == "" then mr else record mr { stop_reason = s }

-- The closure: whether to go on, and the collector.
unfoldable pub take_event : AnthEvent → AnthCollector → Bool × AnthCollector
take_event ev ac =
    if ev.kind == "message_start"
    then (true, take_message ev.message ac)
    else if ev.kind == "content_block_start"
    then (true, take_block ev.index ev.content_block ac)
    else if ev.kind == "content_block_delta"
    then (true, take_delta ev.index (get ac.blocks ev.index) (get ac.inputs ev.index) ev.delta ac)
    else if ev.kind == "message_delta"
    then (true, record ac { mr = take_usage ev.usage (take_reason ev.stop_reason ac.mr) })
    else if ev.kind == "error"
    then (false, ac)
    else (true, ac)

abbrev pub new_collector : String → AnthCollector
new_collector id = record {
  blocks = [];
  inputs = [];
  order = [];
  mr = record {
    id = id;
    model = "";
    content = [];
    stop_reason = "";
    input_tokens = pos 0;
    output_tokens = pos 0;
    cache_read = pos 0;
    cache_creation = pos 0;
  };
}

module _ (valid : String → Bool) where
  abbrev pub with_input : Block → String → Block
  with_input b raw =
      if b.kind == "tool_use"
      then record b { input = if raw == "" || not (valid raw) then "{}" else raw }
      else b

  abbrev pub raw_input : Option (List String) → String
  raw_input none = ""
  raw_input (some ss) = joined ss

  -- Each index of the order has a block: both are written together.
  unfoldable pub kept_blocks : List ℤ → AnthCollector → List Block
  kept_blocks [] ac = []
  kept_blocks (i ∷ is) ac =
      let rest = kept_blocks is ac in
      elim (get ac.blocks i) [
        | none ↦ rest
        | some b ↦
            if b.kind == "thinking" then rest else with_input b (raw_input (get ac.inputs i)) ∷ rest
      ]

  abbrev pub or_text : List Block → List Block
  or_text [] = record { kind = "text"; text = ""; id = ""; name = ""; input = "" } ∷ []
  or_text (b ∷ bs) = b ∷ bs

  unfoldable pub finish : AnthCollector → MessageResponse
  unfolding kept_blocks
  finish ac = record ac.mr {
    content = or_text (kept_blocks (sort_ints ac.order) ac);
    stop_reason = first_non_empty ac.mr.stop_reason "end_turn";
  }

  module _ (rand_hex : ℕ → ℕ → String) (decode : String → Option AnthEvent) where
    -- `scanSSEData` with the closure; whether it stops before the stream is read to its end, so that
    -- no later error of the scanner is met.
    unfoldable pub take_lines : List String → AnthCollector → Bool × AnthCollector
    unfolding take_event
    take_lines [] ac = (false, ac)
    take_lines (l ∷ ls) ac = elim (read_line l) [
      | skipped ↦ take_lines ls ac
      | done ↦ (true, ac)
      | payload p ↦ elim (decode p) [
        | none ↦ take_lines ls ac
        | some ev ↦
            let rest = take_lines ls (take_event ev ac).1 in
            if (take_event ev ac).0 then rest else (true, (take_event ev ac).1)
      ]
    ]

    -- `failed` tells whether the scanner has met an error; `none` is an error.
    unfoldable pub collect_anthropic : List String → Bool → Option MessageResponse
    unfolding take_lines finish
    collect_anthropic lines failed =
        let (ended, ac) = take_lines lines (new_collector (str_append "msg_" (rand_hex 12 0))) in
        if failed && not ended then none else some (finish ac)
