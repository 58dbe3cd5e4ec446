-- ===== src/Core/Respond.antt =====
-- internal/core/translate_resp.go and internal/core/openai_outbound.go: a whole answer translated from
-- OpenAI's form to Anthropic's and back, with the types of internal/core/openai.go that hold it.
-- Encoding and decoding JSON are not part of it; raw JSON is its text.
pub mod Calls
pub mod Again
mod Examples
use Prim.Native.String.{String, ◌++◌ as str_append}
use claude_code_gateway.Prelude.{
  ℕ, ◌+◌, Bool, ◌||◌, List, [], ◌∷◌, ◌++◌, Option, none, some, if◌then◌else◌, ◌==◌, string_eq,
}
use claude_code_gateway.Prelude.Int.{ℤ, pos, ◌+ℤ◌}
use claude_code_gateway.Prelude.Text.{cut_prefix}
use claude_code_gateway.Core.Stream.{OaiUsage, first_non_empty, stop_from_finish}
use claude_code_gateway.Core.Collect.{Block, MessageResponse}

-- The content of a message, an `interface{}`: neither a text nor a list, a text, or a list, of which
-- each element is given by its text (empty where it has none).
pub data Content : Type 0 where
  other_content : Content
  plain : String → Content
  parts : List String → Content

pub record OaiToolCall : Type 0 where
  pub id : String
  pub name : String
  pub arguments : String

pub record ChatMessage : Type 0 where
  pub content : Content
  pub tool_calls : List OaiToolCall

pub record MessageChoice : Type 0 where
  pub message : Option ChatMessage
  pub finish_reason : Option String

pub record ChatResponse : Type 0 where
  pub model : String
  pub choices : List MessageChoice
  pub usage : Option OaiUsage

abbrev pub text_of : String → Block
text_of s = record { kind = "text"; text = s; id = ""; name = ""; input = "" }

-- The loop over the parts.
unfoldable pub part_blocks : List String → List Block
part_blocks [] = []
part_blocks (t ∷ ts) = let rest = part_blocks ts in if t == "" then rest else text_of t ∷ rest

unfoldable pub content_blocks : Content → List Block
unfolding part_blocks
content_blocks other_content = []
content_blocks (plain s) = if s == "" then [] else text_of s ∷ []
content_blocks (parts ts) = part_blocks ts

abbrev pub or_braces : String → String
or_braces s = if s == "" || s == "null" then "{}" else s

-- `StopFromFinish` of a pointer.
abbrev pub stop_of : Option String → String
stop_of none = "end_turn"
stop_of (some f) = stop_from_finish f

abbrev pub choice_stop : List MessageChoice → String
choice_stop [] = ""
choice_stop (c ∷ cs) = stop_of c.finish_reason

abbrev pub padded : List Block → List Block
padded [] = text_of "" ∷ []
padded (b ∷ bs) = b ∷ bs

abbrev pub usage_in : Option OaiUsage → ℤ
usage_in none = pos 0
usage_in (some u) = u.prompt_tokens

abbrev pub usage_out : Option OaiUsage → ℤ
usage_out none = pos 0
usage_out (some u) = u.completion_tokens

module _ (rand_hex : ℕ → ℕ → String) where
  -- The loop over the calls of tools; `k` counts the random identifiers.
  unfoldable pub call_blocks : ℕ → List OaiToolCall → List Block
  call_blocks k [] = []
  call_blocks k (tc ∷ tcs) =
      record {
        kind = "tool_use";
        text = "";
        id = first_non_empty tc.id (str_append "toolu_" (rand_hex 10 k));
        name = tc.name;
        input = or_braces tc.arguments;
      }
      ∷ call_blocks (k + 1) tcs

  unfoldable pub message_blocks : Option ChatMessage → List Block
  unfolding content_blocks call_blocks
  message_blocks none = []
  message_blocks (some m) = content_blocks m.content ++ call_blocks 1 m.tool_calls

  abbrev pub choice_blocks : List MessageChoice → List Block
  choice_blocks [] = []
  choice_blocks (c ∷ cs) = message_blocks c.message

  unfoldable pub translate_response : ChatResponse → String → MessageResponse
  unfolding message_blocks
  translate_response cr requested = record {
    id = str_append "msg_" (rand_hex 12 0);
    model = first_non_empty cr.model requested;
    content = padded (choice_blocks cr.choices);
    stop_reason = first_non_empty (choice_stop cr.choices) "end_turn";
    input_tokens = usage_in cr.usage;
    output_tokens = usage_out cr.usage;
    cache_read = pos 0;
    cache_creation = pos 0;
  }

-- `strings.Replace(s, "msg_", "chatcmpl-", 1)`
unfoldable pub rename_id : String → String
rename_id String.[] = ""
rename_id (String.◌∷◌ c s) = elim (cut_prefix (String.◌∷◌ c s) "msg_") [
  | some rest ↦ str_append "chatcmpl-" rest
  | none ↦ String.◌∷◌ c (rename_id s)
]

-- The map that is encoded; an empty content and an empty list of calls are left out of it.
pub record OaiResponse : Type 0 where
  pub id : String
  pub model : String
  pub content : String
  pub tool_calls : List OaiToolCall
  pub finish_reason : String
  pub prompt_tokens : ℤ
  pub completion_tokens : ℤ
  pub total_tokens : ℤ

abbrev pub add_line : String → String → String
add_line content s =
    if s == ""
    then content
    else str_append (if content == "" then content else str_append content "\n") s

-- The loop over the blocks, with the content and the calls so far.
unfoldable pub read_blocks : List Block → String → List OaiToolCall → String × List OaiToolCall
read_blocks [] content calls = (content, calls)
read_blocks (b ∷ bs) content calls =
    read_blocks bs (if b.kind == "text" then add_line content b.text else content) (
      if b.kind == "tool_use"
      then calls ++ record { id = b.id; name = b.name; arguments = or_braces b.input } ∷ []
      else calls)

unfoldable pub finish_of : String → String
finish_of s =
    if s == "tool_use" then "tool_calls" else if s == "max_tokens" then "length" else "stop"

unfoldable pub to_openai : MessageResponse → OaiResponse
unfolding read_blocks finish_of rename_id
to_openai mr =
    let (content, calls) = read_blocks mr.content "" [] in
    record {
      id = rename_id mr.id;
      model = mr.model;
      content = content;
      tool_calls = calls;
      finish_reason = finish_of mr.stop_reason;
      prompt_tokens = mr.input_tokens;
      completion_tokens = mr.output_tokens;
      total_tokens = mr.input_tokens +ℤ mr.output_tokens;
    }
