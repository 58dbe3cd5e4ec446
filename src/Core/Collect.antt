-- ===== src/Core/Collect.antt =====
-- internal/core/collect.go: a stream of OpenAI chunks collected into one message, with the types of
-- internal/core/types.go that it fills. Decoding a chunk and `json.Valid` are parameters, and so are the
-- random digits. A strings.Builder is the list of what has been written to it.
pub mod Agrees
pub mod Anthropic
mod Examples
use Prim.Native.String.{len, ◌++◌ as str_append}
use claude_code_gateway.Prelude.{
  ℕ, zero, suc, ◌+◌, ◌*◌, String, Bool, true, false, not, ◌&&◌, ◌||◌, List, [], ◌∷◌, ◌++◌, Option,
  none, some, if◌then◌else◌, ◌==◌, string_eq, length,
}
use claude_code_gateway.Prelude.GoMap.{GoMap, get, put}
use claude_code_gateway.Prelude.Int.{ℤ, pos, int_eq}
use claude_code_gateway.Core.Stream.{
  ToolCall, ChatDelta, Choice, OaiUsage, OaiChunk, stop_from_finish, first_non_empty, sort_ints,
  estimate_tokens, Line, skipped, done, payload, read_line,
}

-- `kind` is the field `Type`.
pub record Block : Type 0 where
  pub kind : String
  pub text : String
  pub id : String
  pub name : String
  pub input : String

pub record MessageResponse : Type 0 where
  pub id : String
  pub model : String
  pub content : List Block
  pub stop_reason : String
  pub input_tokens : ℤ
  pub output_tokens : ℤ
  pub cache_read : ℤ
  pub cache_creation : ℤ

pub record ToolAcc : Type 0 where
  pub id : String
  pub name : String
  pub args : List String

-- What the closure of `CollectOpenAIStream` changes.
pub record Collected : Type 0 where
  pub model : String
  pub text : List String
  pub tools : GoMap ℤ ToolAcc
  pub order : List ℤ
  pub stop : String
  pub input_tokens : ℤ
  pub output_tokens : ℤ

abbrev pub nothing : Collected
nothing = record {
  model = "";
  text = [];
  tools = [];
  order = [];
  stop = "";
  input_tokens = pos 0;
  output_tokens = pos 0;
}

-- `String` of a builder
abbrev pub joined : List String → String
joined [] = ""
joined (s ∷ ss) = str_append s (joined ss)

abbrev pub tool_acc : Option ToolAcc → ToolAcc
tool_acc none = record { id = ""; name = ""; args = [] }
tool_acc (some ta) = ta

abbrev pub order_with : Option ToolAcc → ℤ → List ℤ → List ℤ
order_with none i is = is ++ i ∷ []
order_with (some ta) i is = is

unfoldable pub collect_call : ToolCall → Collected → Collected
collect_call tc c =
    let found = get c.tools tc.index in
    let ta = tool_acc found in
    record c {
      order = order_with found tc.index c.order;
      tools = put c.tools tc.index (record {
        id = first_non_empty tc.id ta.id;
        name = first_non_empty tc.name ta.name;
        args = ta.args ++ tc.arguments ∷ [];
      });
    }

unfoldable pub collect_calls : List ToolCall → Collected → Collected
unfolding collect_call
collect_calls [] c = c
collect_calls (tc ∷ tcs) c = collect_calls tcs (collect_call tc c)

unfoldable pub collect_text : String → Collected → Collected
collect_text s c = if s == "" then c else record c { text = c.text ++ s ∷ [] }

abbrev pub collect_delta : Option ChatDelta → Collected → Collected
collect_delta none c = c
collect_delta (some d) c = collect_calls d.tool_calls (collect_text d.content c)

abbrev pub collect_finish : Option String → Collected → Collected
collect_finish none c = c
collect_finish (some f) c = if f == "" then c else record c { stop = stop_from_finish f }

abbrev pub collect_usage : Option OaiUsage → Collected → Collected
collect_usage none c = c
collect_usage (some u) c = record c {
  input_tokens = u.prompt_tokens;
  output_tokens = u.completion_tokens;
}

abbrev pub collect_choice : List Choice → Collected → Collected
collect_choice [] c = c
collect_choice (ch ∷ chs) c = collect_finish ch.finish_reason (collect_delta ch.delta c)

unfoldable pub collect_chunk : OaiChunk → Collected → Collected
unfolding collect_calls collect_text
collect_chunk ch c =
    collect_choice ch.choices
      (collect_usage ch.usage (record c { model = first_non_empty ch.model c.model }))

module _ (rand_hex : ℕ → ℕ → String) (decode : String → Option OaiChunk)
    (valid : String → Bool) where
  -- `scanSSEData` with the closure: whether it met the end of the stream.
  unfoldable pub collect_lines : List String → Collected → Bool × Collected
  unfolding collect_chunk
  collect_lines [] c = (false, c)
  collect_lines (l ∷ ls) c = elim (read_line l) [
    | skipped ↦ collect_lines ls c
    | done ↦ (true, c)
    | payload p ↦ collect_lines ls (elim (decode p) [ none ↦ c | some ch ↦ collect_chunk ch c ])
  ]

  abbrev pub tool_input : String → String
  tool_input args = if args == "" || not (valid args) then "{}" else args

  -- The blocks of the tools; `k` counts the random identifiers.
  unfoldable pub tool_blocks : ℕ → List ℤ → GoMap ℤ ToolAcc → List Block
  tool_blocks k [] tools = []
  tool_blocks k (i ∷ is) tools =
      let ta = tool_acc (get tools i) in
      record {
        kind = "tool_use";
        text = "";
        id = first_non_empty ta.id (str_append "toolu_" (rand_hex 10 k));
        name = ta.name;
        input = tool_input (joined ta.args);
      }
      ∷ tool_blocks (k + 1) is tools

  abbrev pub text_block : String → Block
  text_block s = record { kind = "text"; text = s; id = ""; name = ""; input = "" }

  abbrev pub or_empty : List Block → List Block
  or_empty [] = text_block "" ∷ []
  or_empty (b ∷ bs) = b ∷ bs

  unfoldable pub response : Collected → MessageResponse
  unfolding tool_blocks
  response c =
      let text = joined c.text in
      record {
        id = str_append "msg_" (rand_hex 12 0);
        model = first_non_empty c.model "unknown";
        content = or_empty (
            (if text == "" then [] else text_block text ∷ [])
            ++ tool_blocks 1 (sort_ints c.order) c.tools);
        stop_reason = first_non_empty c.stop "end_turn";
        cache_read = pos 0;
        cache_creation = pos 0;
        input_tokens = c.input_tokens;
        output_tokens =
            if c.input_tokens == pos 0 && c.output_tokens == pos 0
            then pos (estimate_tokens (len text) + length c.tools * 60)
            else c.output_tokens;
      }

  -- `failed` tells whether the scanner ends in an error; `none` is an error.
  unfoldable pub collect_openai : List String → Bool → Option MessageResponse
  unfolding collect_lines response
  collect_openai lines failed =
      let (ended, c) = collect_lines lines nothing in
      if failed && not ended then none else some (response c)
