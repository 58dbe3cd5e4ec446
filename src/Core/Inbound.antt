-- ===== src/Core/Inbound.antt =====
-- internal/core/openai_inbound.go: a request of OpenAI's translated into one of Anthropic's. Raw JSON is its
-- text, empty where there is none; encoding and decoding it are parameters.
use Prim.Native.String.{◌++◌ as str_append}
use claude_code_gateway.Prelude.{
  ℕ, String, Bool, true, false, Option, none, some, List, [], ◌∷◌, ◌++◌, map, if◌then◌else◌, ◌==◌,
  string_eq,
}
use claude_code_gateway.Prelude.Int.{ℤ, pos, int_eq}
use claude_code_gateway.Prelude.Text.{cut, cut_prefix}
use claude_code_gateway.Core.Respond.{OaiToolCall}
use claude_code_gateway.Core.Request.{
  ImageSource, RequestBlock, ApiMessage, ToolDef, MessagesRequest, text_block_of,
}
pub mod Back
mod Examples

pub record InMessage : Type 0 where
  pub role : String
  pub content : String
  pub tool_calls : List OaiToolCall
  pub tool_call_id : String

-- The fields that are translated, but for those that are copied.
pub record InRequest : Type 0 where
  pub model : String
  pub max_tokens : ℤ
  pub messages : List InMessage
  pub stream : Bool
  pub tools : List ToolDef
  pub tool_choice : String

-- `ContentPart`, as a request has it.
pub record InPart : Type 0 where
  pub kind : String
  pub text : String
  pub image_url : Option String

-- What stands before the semicolon, and the data after it.
unfoldable pub parse_data_url : String → Option (String × String)
unfolding cut cut_prefix
parse_data_url url = elim (cut_prefix url "data:") [
  | none ↦ none
  | some rest ↦
      let (media, after, found) = cut b';' rest in
      if found
      then elim (cut_prefix after "base64,") [ none ↦ none | some bytes ↦ some (media, bytes) ]
      else none
]

abbrev pub image_block : ImageSource → RequestBlock
image_block s = record {
  kind = "image";
  text = "";
  id = "";
  name = "";
  input = "";
  source = some s;
  tool_use_id = "";
  content = "";
}

unfoldable pub image_of : String → RequestBlock
unfolding parse_data_url
image_of url = elim (parse_data_url url) [
  | none ↦ image_block (record { media_type = ""; base64 = ""; url = url })
  | some (media, bytes) ↦ image_block (record { media_type = media; base64 = bytes; url = "" })
]

abbrev pub blocks_of_part : InPart → List RequestBlock
blocks_of_part p =
    if p.kind == "text"
    then text_block_of p.text ∷ []
    else if p.kind == "image_url"
    then elim p.image_url [ none ↦ [] | some url ↦ image_of url ∷ [] ]
    else []

unfoldable pub blocks_of_parts : List InPart → List RequestBlock
unfolding image_of
blocks_of_parts [] = []
blocks_of_parts (p ∷ ps) = blocks_of_part p ++ blocks_of_parts ps

abbrev pub call_block : OaiToolCall → RequestBlock
call_block tc = record {
  kind = "tool_use";
  text = "";
  id = tc.id;
  name = tc.name;
  input = tc.arguments;
  source = none;
  tool_use_id = "";
  content = "";
}

abbrev pub result_block : InMessage → RequestBlock
result_block m = record {
  kind = "tool_result";
  text = "";
  id = "";
  name = "";
  input = "";
  source = none;
  tool_use_id = m.tool_call_id;
  content = m.content;
}

abbrev pub unless_none : {A : Type 0} → A → Option A → A
unless_none a none = a
unless_none a (some x) = x

pub record InCodec : Type 0 where
  pub as_text : String → Option String
  pub as_blocks : String → Option (List RequestBlock)
  pub as_parts : String → Option (List InPart)
  pub encode_text : String → String
  pub encode_blocks : List RequestBlock → Option String

module _ (codec : InCodec) where
  unfoldable pub append_raw_text : String → String → String
  append_raw_text existing content = elim (codec.as_text content) [
    | some s ↦
        if existing == ""
        then codec.encode_text s
        else codec.encode_text
            (str_append (unless_none "" (codec.as_text existing)) (str_append "\n" s))
    | none ↦ if existing == "" then content else existing
  ]

  abbrev pub assistant_blocks : String → List RequestBlock
  assistant_blocks content = elim (codec.as_text content) [
    | some s ↦ if s == "" then [] else text_block_of s ∷ []
    | none ↦ unless_none [] (codec.as_blocks content)
  ]

  unfoldable pub user_blocks : String → List RequestBlock
  unfolding blocks_of_parts
  user_blocks content = elim (codec.as_text content) [
    | some s ↦ text_block_of s ∷ []
    | none ↦ elim (codec.as_parts content) [
      | some ps ↦ blocks_of_parts ps
      | none ↦ text_block_of content ∷ []
    ]
  ]

  -- An error of encoding leaves the content empty.
  abbrev pub marshal_blocks : List RequestBlock → String
  marshal_blocks [] = "[]"
  marshal_blocks (b ∷ bs) = unless_none "" (codec.encode_blocks (b ∷ bs))

  abbrev pub blocks_of_message : InMessage → List RequestBlock
  blocks_of_message m =
      if m.role == "assistant"
      then assistant_blocks m.content ++ map call_block m.tool_calls
      else if m.role == "tool"
      then result_block m ∷ []
      else user_blocks m.content

  unfoldable pub message_in : InMessage → ApiMessage
  unfolding user_blocks
  message_in m = record {
    role = if m.role == "assistant" then "assistant" else "user";
    content = marshal_blocks (blocks_of_message m);
  }

  -- The loop over the messages: the text of the system so far, and the messages.
  unfoldable pub read_messages : String → List InMessage → String × List ApiMessage
  unfolding append_raw_text message_in
  read_messages system [] = (system, [])
  read_messages system (m ∷ ms) =
      let is_system = m.role == "system" in
      let (system', rest) =
        read_messages (if is_system then append_raw_text system m.content else system) ms in
      (system', if is_system then rest else message_in m ∷ rest)

  unfoldable pub to_anthropic : InRequest → MessagesRequest
  unfolding read_messages
  to_anthropic o =
      let (system, ms) = read_messages "" o.messages in
      record {
        model = o.model;
        max_tokens = if o.max_tokens == pos 0 then pos 4096 else o.max_tokens;
        messages = ms;
        system = system;
        stream = o.stream;
        tools = o.tools;
        tool_choice = o.tool_choice;
        thinking = "";
      }
