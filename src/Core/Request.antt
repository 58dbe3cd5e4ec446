-- ===== src/Core/Request.antt =====
-- internal/core/translate_req.go: a request of Anthropic's read, estimated and translated into one of
-- OpenAI's, with the types of internal/core/types.go and internal/core/openai.go that hold them. Raw JSON is
-- its text; decoding it is a parameter, and so are the random digits.
pub mod Estimate
pub mod Pieces
mod Examples
use Prim.Native.String.{String, ◌++◌ as str_append}
use claude_code_gateway.Prelude.{
  ℕ, ◌+◌, Bool, true, false, not, ◌&&◌, ◌||◌, List, [], ◌∷◌, ◌++◌, Option, none, some,
  if◌then◌else◌, ◌==◌, string_eq,
}
use claude_code_gateway.Prelude.Int.{ℤ}
use claude_code_gateway.Core.Stream.{first_non_empty}
use claude_code_gateway.Core.Respond.{OaiToolCall, or_braces}

pub record ImageSource : Type 0 where
  pub media_type : String
  pub base64 : String
  pub url : String

-- `Block`, as a request has it.
pub record RequestBlock : Type 0 where
  pub kind : String
  pub text : String
  pub id : String
  pub name : String
  pub input : String
  pub source : Option ImageSource
  pub tool_use_id : String
  pub content : String

pub record ApiMessage : Type 0 where
  pub role : String
  pub content : String

pub record ToolDef : Type 0 where
  pub name : String
  pub description : String
  pub input_schema : String

pub record ToolChoice : Type 0 where
  pub kind : String
  pub name : String

-- The fields that the functions here read, but for those that are copied.
pub record MessagesRequest : Type 0 where
  pub model : String
  pub max_tokens : ℤ
  pub messages : List ApiMessage
  pub system : String
  pub stream : Bool
  pub tools : List ToolDef
  pub tool_choice : String
  pub thinking : String

-- A part of a message: a text, or an image by its address.
pub data ContentPart : Type 0 where
  text_part : String → ContentPart
  image_part : String → ContentPart

pub data MessageContent : Type 0 where
  no_content : MessageContent
  just_text : String → MessageContent
  in_parts : List ContentPart → MessageContent

pub record OutMessage : Type 0 where
  pub role : String
  pub content : MessageContent
  pub tool_call_id : String
  pub tool_calls : List OaiToolCall

pub data OutChoice : Type 0 where
  unset : OutChoice
  mode : String → OutChoice
  function : String → OutChoice

pub record ChatRequest : Type 0 where
  pub model : String
  pub messages : List OutMessage
  pub stream : Bool
  pub tools : List ToolDef
  pub tool_choice : OutChoice

abbrev pub text_block_of : String → RequestBlock
text_block_of s = record {
  kind = "text";
  text = s;
  id = "";
  name = "";
  input = "";
  source = none;
  tool_use_id = "";
  content = "";
}

-- `strings.Join`
unfoldable pub join : List String → String → String
join [] sep = ""
join (s ∷ []) sep = s
join (s ∷ t ∷ ss) sep = str_append s (str_append sep (join (t ∷ ss) sep))

-- The texts that are not empty.
unfoldable pub texts_in : List RequestBlock → List String
texts_in [] = []
texts_in (b ∷ bs) =
    let rest = texts_in bs in if b.kind == "text" && not (b.text == "") then b.text ∷ rest else rest

-- What `FlattenContent` makes of the blocks.
unfoldable pub flat_texts : List RequestBlock → List String
flat_texts [] = []
flat_texts (b ∷ bs) =
    let rest = flat_texts bs in
    if b.kind == "text"
    then if b.text == "" then rest else b.text ∷ rest
    else str_append "[" (str_append b.kind "]") ∷ rest

unfoldable pub calls_in : (ℕ → String) → ℕ → List RequestBlock → List OaiToolCall
calls_in rand k [] = []
calls_in rand k (b ∷ bs) =
    let rest = calls_in rand (k + 1) bs in
    if b.kind == "tool_use"
    then record {
      id = first_non_empty b.id (str_append "call_" (rand k));
      name = b.name;
      arguments = or_braces b.input;
    }
      ∷ rest
    else rest

-- The address of an image: its own, or its bytes.
unfoldable pub image_url : ImageSource → String
image_url s =
    if s.url == "" && not (s.base64 == "")
    then str_append "data:" (str_append s.media_type (str_append ";base64," s.base64))
    else s.url

abbrev pub image_parts : Option ImageSource → List ContentPart
image_parts none = []
image_parts (some s) = if image_url s == "" then [] else image_part (image_url s) ∷ []

-- A single text stands alone.
abbrev pub user_content : List ContentPart → MessageContent
user_content [] = in_parts []
user_content (text_part s ∷ []) = just_text s
user_content (image_part u ∷ []) = in_parts (image_part u ∷ [])
user_content (p ∷ q ∷ ps) = in_parts (p ∷ q ∷ ps)

-- The closure `flush`.
abbrev pub flush_parts : List ContentPart → List OutMessage
flush_parts [] = []
flush_parts (p ∷ ps) =
    record { role = "user"; content = user_content (p ∷ ps); tool_call_id = ""; tool_calls = [] }
    ∷ []

abbrev pub assistant_content : List String → MessageContent
assistant_content [] = no_content
assistant_content (t ∷ ts) = just_text (join (t ∷ ts) "\n\n")

abbrev pub unless_empty : OutMessage → List OutMessage
unless_empty m = elim m.content [
  | no_content ↦ elim m.tool_calls [ [] ↦ [] | c ∷ cs ↦ m ∷ [] ]
  | just_text s ↦ m ∷ []
  | in_parts ps ↦ m ∷ []
]

unfoldable pub assistant_message : (ℕ → String) → List RequestBlock → List OutMessage
unfolding texts_in calls_in join
assistant_message rand bs = unless_empty (record {
  role = "assistant";
  content = assistant_content (texts_in bs);
  tool_call_id = "";
  tool_calls = calls_in rand 0 bs;
})

abbrev pub tool_choice_of : Option ToolChoice → OutChoice
tool_choice_of none = unset
tool_choice_of (some tc) =
    if tc.kind == "auto"
    then mode "auto"
    else if tc.kind == "any"
    then mode "required"
    else if tc.kind == "tool"
    then function tc.name
    else unset

unfoldable pub tool_of : ToolDef → ToolDef
tool_of t = record t {
  input_schema =
      if t.input_schema == "" || t.input_schema == "null"
      then "{\"type\":\"object\",\"properties\":{}}"
      else t.input_schema;
}

unfoldable pub tools_of : List ToolDef → List ToolDef
unfolding tool_of
tools_of [] = []
tools_of (t ∷ ts) = tool_of t ∷ tools_of ts

-- `as_text` and `as_blocks` decode a JSON text and a JSON list of blocks.
module _ (as_text : String → Option String) (as_blocks : String → Option (List RequestBlock)) where
  -- `none` is an error.
  unfoldable pub blocks_from_raw : String → Option (List RequestBlock)
  blocks_from_raw raw = if raw == "" then some [] else elim (as_text raw) [
    | some s ↦ some (if s == "" then [] else text_block_of s ∷ [])
    | none ↦ as_blocks raw
  ]

  abbrev pub or_no_blocks : Option (List RequestBlock) → List RequestBlock
  or_no_blocks none = []
  or_no_blocks (some bs) = bs

  unfoldable pub system_text : String → String
  unfolding blocks_from_raw texts_in join
  system_text raw = if raw == "" then "" else elim (as_text raw) [
    | some s ↦ s
    | none ↦ join (texts_in (or_no_blocks (blocks_from_raw raw))) "\n\n"
  ]

  unfoldable pub flatten_content : String → String
  unfolding blocks_from_raw flat_texts join
  flatten_content raw = if raw == "" || raw == "null" then "" else elim (as_text raw) [
    | some s ↦ s
    | none ↦ join (flat_texts (or_no_blocks (blocks_from_raw raw))) "\n"
  ]

  -- The loop over the blocks of a message of the user, with the parts that are not written yet.
  unfoldable pub user_messages : List ContentPart → List RequestBlock → List OutMessage
  unfolding flatten_content
  user_messages parts [] = flush_parts parts
  user_messages parts (b ∷ bs) =
      let more =
        if b.kind == "text"
        then if b.text == "" then parts else parts ++ text_part b.text ∷ []
        else if b.kind == "image"
        then parts ++ image_parts b.source
        else parts in
      let on = user_messages more bs in
      let after = user_messages [] bs in
      if b.kind == "tool_result"
      then flush_parts parts
        ++ record {
          role = "tool";
          content = just_text (flatten_content b.content);
          tool_call_id = b.tool_use_id;
          tool_calls = [];
        }
          ∷ after
      else on

  abbrev pub message_of : (ℕ → String) → String → List RequestBlock → List OutMessage
  message_of rand role bs =
      if role == "assistant" then assistant_message rand bs else user_messages [] bs

  abbrev pub prepend : List OutMessage → Option (List OutMessage) → Option (List OutMessage)
  prepend ms none = none
  prepend ms (some rest) = some (ms ++ rest)

  abbrev pub decoded :
      (ℕ → String)
      → String
      → Option (List RequestBlock)
      → Option (List OutMessage)
      → Option (List OutMessage)
  decoded rand role none rest = none
  decoded rand role (some bs) rest = prepend (message_of rand role bs) rest

  -- The loop over the messages, the n-th with random digits of its own.
  unfoldable pub messages_of : (ℕ → ℕ → String) → ℕ → List ApiMessage → Option (List OutMessage)
  unfolding user_messages assistant_message
  messages_of rand n [] = some []
  messages_of rand n (am ∷ ams) =
      decoded (rand n) am.role (blocks_from_raw am.content) (messages_of rand (n + 1) ams)

  abbrev pub system_message : String → List OutMessage
  system_message s =
      if s == ""
      then []
      else record { role = "system"; content = just_text s; tool_call_id = ""; tool_calls = [] }
        ∷ []

  abbrev pub chat_request :
      (String → Option ToolChoice)
      → MessagesRequest
      → String
      → Option (List OutMessage)
      → Option ChatRequest
  chat_request as_choice m target none = none
  chat_request as_choice m target (some ms) = some (record {
    model = target;
    messages = ms;
    stream = m.stream;
    tools = tools_of m.tools;
    tool_choice =
        if m.tool_choice == "" || m.tool_choice == "null"
        then unset
        else tool_choice_of (as_choice m.tool_choice);
  })

  unfoldable pub translate_request :
      (ℕ → ℕ → String)
      → (String → Option ToolChoice)
      → MessagesRequest
      → String
      → Option ChatRequest
  unfolding messages_of system_text tools_of
  translate_request rand as_choice m target =
      chat_request as_choice m target
        (prepend (system_message (system_text m.system)) (messages_of rand 0 m.messages))
