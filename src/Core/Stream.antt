-- ===== src/Core/Stream.antt =====
-- internal/core/stream.go: the translation of a stream of OpenAI chunks into Anthropic's events, with
-- the types of internal/core/openai.go and `StopFromFinish` of internal/core/translate_resp.go that it
-- uses. What it writes is a list of events. Decoding a chunk (encoding/json) and the random digits of
-- an identifier are parameters. The entries of the map of tools are pointers: an entry that changes is
-- put back.
pub mod Monitor
pub mod Blocks
pub mod Tools
pub mod Closing
pub mod Whole
pub mod Examples
use Prim.Native.String.{len, ◌++◌ as str_append}
use claude_code_gateway.Prelude.{
  ℕ, zero, suc, ◌+◌, ◌*◌, ◌/◌, ◌%◌, String, Bool, true, false, not, ◌&&◌, ◌||◌, List, [], ◌∷◌, ◌++◌,
  Option, none, some, ltb, if◌then◌else◌, ◌==◌, string_eq, length,
}
use claude_code_gateway.Prelude.GoMap.{GoMap, get, put, keys}
use claude_code_gateway.Prelude.Int.{ℤ, pos, ltb_ℤ, int_eq}
use claude_code_gateway.Prelude.Text.{has_prefix, trim_prefix, trim_space}

pub record ToolCall : Type 0 where
  pub index : ℤ
  pub id : String
  pub name : String
  pub arguments : String

pub record ChatDelta : Type 0 where
  pub content : String
  pub tool_calls : List ToolCall

pub record Choice : Type 0 where
  pub delta : Option ChatDelta
  pub finish_reason : Option String

pub record OaiUsage : Type 0 where
  pub prompt_tokens : ℤ
  pub completion_tokens : ℤ

pub record OaiChunk : Type 0 where
  pub model : String
  pub choices : List Choice
  pub usage : Option OaiUsage

-- The events, with what varies in their payloads.
pub data Event : Type 0 where
  message_start : String → String → ℤ → Event
  text_start : ℕ → Event
  tool_start : ℕ → String → String → Event
  text_delta : ℕ → String → Event
  json_delta : ℕ → String → Event
  block_stop : ℕ → Event
  message_delta : String → ℤ → ℤ → Event
  message_stop : Event

pub record StreamTool : Type 0 where
  pub a_idx : ℕ
  pub started : Bool
  pub id : String
  pub name : String

-- `drawn` counts the random identifiers, and `out` is what has been written.
pub record Translator : Type 0 where
  pub model : String
  pub msg_id : String
  pub next_idx : ℕ
  pub open_text : Bool
  pub text_idx : ℕ
  pub text_chars : ℕ
  pub tools : GoMap ℤ StreamTool
  pub usage_in : ℤ
  pub usage_out : ℤ
  pub stop_reason : String
  pub started : Bool
  pub drawn : ℕ
  pub out : List Event

unfoldable pub stop_from_finish : String → String
stop_from_finish f =
    if f == "length"
    then "max_tokens"
    else if f == "tool_calls" || f == "function_call"
    then "tool_use"
    else "end_turn"

abbrev pub first_non_empty : String → String → String
first_non_empty v w = if v == "" then w else v

abbrev pub emit : Event → Translator → Translator
emit e t = record t { out = t.out ++ e ∷ [] }

unfoldable pub start : Translator → Translator
start t =
    if t.started
    then t
    else emit (message_start t.msg_id t.model (pos 0)) (record t { started = true })

unfoldable pub ensure_text : Translator → Translator
ensure_text t =
    if t.open_text
    then t
    else emit (text_start t.next_idx)
        (record t { open_text = true; text_idx = t.next_idx; next_idx = t.next_idx + 1 })

unfoldable pub close_text : Translator → Translator
close_text t =
    if t.open_text then emit (block_stop t.text_idx) (record t { open_text = false }) else t

-- `&streamTool{}`
abbrev pub fresh_tool : StreamTool
fresh_tool = record { a_idx = 0; started = false; id = ""; name = "" }

abbrev pub tool : ℤ → Translator → StreamTool
tool i t = elim (get t.tools i) [ none ↦ fresh_tool | some st ↦ st ]

-- A chunk with text.
unfoldable pub add_text : String → Translator → Translator
unfolding ensure_text
add_text s t =
    let t' = ensure_text t in
    if s == ""
    then t
    else emit (text_delta t'.text_idx s) (record t' { text_chars = t'.text_chars + len s })

unfoldable pub named : ToolCall → StreamTool → StreamTool
named tc st = if not (tc.name == "") && st.name == "" then record st { name = tc.name } else st

unfoldable pub add_arguments : String → ℕ → Translator → Translator
add_arguments s i t = if s == "" then t else emit (json_delta i s) t

-- `rand_hex n k` is the k-th result of `RandHex`, for n bytes.
module _ (rand_hex : ℕ → ℕ → String) where
  unfoldable pub new_translator : String → Translator
  new_translator model = record {
    model = model;
    msg_id = str_append "msg_" (rand_hex 12 0);
    next_idx = 0;
    open_text = false;
    text_idx = 0;
    text_chars = 0;
    tools = [];
    usage_in = pos 0;
    usage_out = pos 0;
    stop_reason = "";
    started = false;
    drawn = 1;
    out = [];
  }

  abbrev pub begun_tool : ToolCall → Translator → StreamTool
  begun_tool tc t = record {
    a_idx = t.next_idx;
    started = true;
    id = first_non_empty tc.id (str_append "toolu_" (rand_hex 10 t.drawn));
    name = tc.name;
  }

  -- A tool that has not been seen before, once the text is closed.
  unfoldable pub begin_tool : ToolCall → Translator → Translator
  begin_tool tc t =
      let st = begun_tool tc t in
      emit (tool_start st.a_idx st.id st.name) (record t {
        next_idx = t.next_idx + 1;
        drawn = t.drawn + 1;
        tools = put t.tools tc.index st;
      })

  unfoldable pub add_call : ToolCall → Translator → Translator
  unfolding begin_tool close_text named add_arguments
  add_call tc t =
      let st = tool tc.index t in
      let t' = close_text t in
      if st.started
      then add_arguments tc.arguments st.a_idx
          (record t { tools = put t.tools tc.index (named tc st) })
      else add_arguments tc.arguments t'.next_idx (begin_tool tc t')

  unfoldable pub add_calls : List ToolCall → Translator → Translator
  unfolding add_call
  add_calls [] t = t
  add_calls (tc ∷ tcs) t = add_calls tcs (add_call tc t)

  abbrev pub note_usage : Option OaiUsage → Translator → Translator
  note_usage none t = t
  note_usage (some u) t = record t { usage_in = u.prompt_tokens; usage_out = u.completion_tokens }

  abbrev pub note_finish : Option String → Translator → Translator
  note_finish none t = t
  note_finish (some f) t = if f == "" then t else record t { stop_reason = stop_from_finish f }

  unfoldable pub add_delta : Option ChatDelta → Translator → Translator
  unfolding add_text add_calls
  add_delta none t = t
  add_delta (some d) t = add_calls d.tool_calls (add_text d.content t)

  unfoldable pub add_choice : List Choice → Translator → Translator
  unfolding add_delta
  add_choice [] t = t
  add_choice (c ∷ cs) t = note_finish c.finish_reason (add_delta c.delta t)

  module _ (decode : String → Option OaiChunk) where
    unfoldable pub chunk : String → Translator → Translator
    unfolding add_choice
    chunk payload t =
        let line = trim_space payload in
        if line == "" || line == "[DONE]" then t else elim (decode line) [
          | none ↦ t
          | some ch ↦ add_choice ch.choices (note_usage ch.usage t)
        ]

-- `sortInts`: the sorted part stands with its last element first.
unfoldable pub sift : ℤ → List ℤ → List ℤ
sift x [] = x ∷ []
sift x (y ∷ ys) = let rest = sift x ys in if ltb_ℤ x y then y ∷ rest else x ∷ y ∷ ys

unfoldable pub sort_onto : List ℤ → List ℤ → List ℤ
unfolding sift
sort_onto sorted [] = sorted
sort_onto sorted (x ∷ xs) = sort_onto (sift x sorted) xs

unfoldable pub turn_onto : List ℤ → List ℤ → List ℤ
turn_onto turned [] = turned
turn_onto turned (x ∷ xs) = turn_onto (x ∷ turned) xs

unfoldable pub sort_ints : List ℤ → List ℤ
unfolding sort_onto turn_onto
sort_ints xs = turn_onto [] (sort_onto [] xs)

unfoldable pub close_tools : List ℤ → Translator → Translator
close_tools [] t = t
close_tools (i ∷ is) t =
    let st = tool i t in close_tools is (if st.started then emit (block_stop st.a_idx) t else t)

-- `EstimateTextTokens` of a text of n bytes
unfoldable pub estimate_tokens : ℕ → ℕ
estimate_tokens n = n / 4 + (if ltb 0 (n % 4) then 1 else 0)

unfoldable pub final_usage : Translator → OaiUsage
unfolding estimate_tokens
final_usage t = record {
  prompt_tokens = t.usage_in;
  completion_tokens =
      if t.usage_out == pos 0
      then pos (estimate_tokens t.text_chars + length t.tools * 60)
      else t.usage_out;
}

unfoldable pub finalize : Translator → Translator
unfolding close_text sort_ints close_tools final_usage
finalize t =
    let no_text = close_text t in
    let closed = close_tools (sort_ints (keys no_text.tools)) no_text in
    let u = final_usage closed in
    emit message_stop (
      emit
        (message_delta (first_non_empty t.stop_reason "end_turn") u.completion_tokens
          u.prompt_tokens)
        closed)

-- What a line holds: nothing, the end of the stream or the payload of a chunk.
pub data Line : Type 0 where
  skipped : Line
  done : Line
  payload : String → Line

unfoldable pub read_line : String → Line
read_line raw =
    let line = trim_space raw in
    let body = trim_space (trim_prefix line "data:") in
    if line == "" || not (has_prefix line "data:")
    then skipped
    else if body == "[DONE]"
    then done
    else payload body

module _ (rand_hex : ℕ → ℕ → String) (decode : String → Option OaiChunk) where
  -- The loop over the lines: whether `first` is still true, and the translator.
  unfoldable pub scan_lines : List String → Bool → Translator → Bool × Translator
  unfolding start chunk
  scan_lines [] first t = (first, t)
  scan_lines (l ∷ ls) first t = elim (read_line l) [
    | skipped ↦ scan_lines ls first t
    | done ↦ (first, t)
    | payload p ↦ scan_lines ls false (chunk rand_hex decode p (if first then start t else t))
  ]

  -- `TranslateOpenAIStream`, for the lines that the scanner yields and whether it ends in an error.
  unfoldable pub translate_stream : List String → Bool → String → Translator
  unfolding scan_lines start finalize new_translator
  translate_stream lines failed model =
      let (first, t) = scan_lines lines true (new_translator rand_hex model) in
      finalize (if first && not failed then start t else t)
