-- ===== src/Core/Request/Estimate.antt =====
-- internal/core/translate_req.go: what the gateway reads off a request: the estimate of its tokens, its flat
-- text, whether it has images and asks for thinking; and its texts rewritten.
use Prim.Native.String.{String, len, ◌++◌ as str_append}
use claude_code_gateway.Prelude.{
  ℕ, ◌+◌, ◌*◌, ◌/◌, Bool, true, false, not, ◌&&◌, ◌||◌, List, [], ◌∷◌, Option, none, some,
  if◌then◌else◌, ◌==◌, string_eq, length, map,
}
use claude_code_gateway.Core.Request.{
  RequestBlock, ImageSource, ApiMessage, ToolDef, MessagesRequest, blocks_from_raw, or_no_blocks,
  system_text, flatten_content,
}

abbrev pub tool_cost : List ToolDef → ℕ
tool_cost [] = 0
tool_cost (t ∷ ts) = len t.name + len t.description + len t.input_schema + tool_cost ts

abbrev pub has_source : Option ImageSource → Bool
has_source none = false
has_source (some s) = true

unfoldable pub any_image : List RequestBlock → Bool
any_image [] = false
any_image (b ∷ bs) = b.kind == "image" && has_source b.source || any_image bs

module _ (as_text : String → Option String) (as_blocks : String → Option (List RequestBlock)) where
  -- The blocks of a message, none where they do not decode.
  abbrev pub blocks_of : ApiMessage → List RequestBlock
  blocks_of am = or_no_blocks as_text as_blocks (blocks_from_raw as_text as_blocks am.content)

  abbrev pub block_cost : RequestBlock → ℕ
  block_cost b =
      if b.kind == "text"
      then len b.text
      else if b.kind == "tool_use"
      then len b.name + len b.input
      else if b.kind == "tool_result"
      then len (flatten_content as_text as_blocks b.content)
      else if b.kind == "image"
      then 4000
      else 0

  unfoldable pub blocks_cost : List RequestBlock → ℕ
  blocks_cost [] = 0
  blocks_cost (b ∷ bs) = block_cost b + 1 + blocks_cost bs

  unfoldable pub messages_cost : List ApiMessage → ℕ
  unfolding blocks_cost
  messages_cost [] = 0
  messages_cost (am ∷ ams) = len am.role + 1 + blocks_cost (blocks_of am) + messages_cost ams

  -- The builder is given by the length of what is written to it.
  unfoldable pub estimate_request_tokens : MessagesRequest → ℕ
  unfolding messages_cost system_text
  estimate_request_tokens m =
      (len (system_text as_text as_blocks m.system)
          + 1
          + messages_cost m.messages
          + tool_cost m.tools)
        / 4
      + 3
      + (length m.messages * 4 + length m.tools * 40)

  abbrev pub block_text : RequestBlock → String
  block_text b =
      if b.kind == "text"
      then b.text
      else if b.kind == "tool_result"
      then flatten_content as_text as_blocks b.content
      else if b.kind == "tool_use"
      then str_append b.name b.input
      else if b.kind == "image"
      then "[image]"
      else ""

  unfoldable pub blocks_text : List RequestBlock → String
  blocks_text [] = ""
  blocks_text (b ∷ bs) = str_append (block_text b) (str_append "\n" (blocks_text bs))

  unfoldable pub messages_text : List ApiMessage → String
  unfolding blocks_text
  messages_text [] = ""
  messages_text (am ∷ ams) = str_append (blocks_text (blocks_of am)) (messages_text ams)

  unfoldable pub request_flat_text : MessagesRequest → String
  unfolding messages_text system_text
  request_flat_text m =
      str_append "SYSTEM: "
        (str_append (system_text as_text as_blocks m.system) (messages_text m.messages))

  unfoldable pub any_message_image : List ApiMessage → Bool
  unfolding any_image
  any_message_image [] = false
  any_message_image (am ∷ ams) = any_image (blocks_of am) || any_message_image ams

  abbrev pub thinks : Option String → Bool
  thinks none = true
  thinks (some kind) = kind == "enabled" || kind == "adaptive"

  -- `RequestTraits`; `as_kind` decodes the type of the field `thinking`.
  unfoldable pub request_traits : (String → Option String) → MessagesRequest → ℕ × Bool × Bool
  unfolding estimate_request_tokens any_message_image
  request_traits as_kind m = (
    estimate_request_tokens m,
    any_message_image m.messages,
    if m.thinking == "" then false else thinks (as_kind m.thinking),
  )

  -- `encode_text` and `encode_blocks` are `json.Marshal`.
  module _ (encode_text : String → String) (encode_blocks : List RequestBlock → String)
      (redact : String → String) where
    -- A block as it is written back, and whether that changes it.
    unfoldable pub redact_block : RequestBlock → RequestBlock × Bool
    redact_block b =
        let text = redact b.text in
        let result = encode_text (redact (flatten_content as_text as_blocks b.content)) in
        if b.kind == "text"
        then (record b { text = text }, not (text == b.text))
        else if b.kind == "tool_result"
        then (record b { content = result }, not (result == b.content))
        else (b, false)

    unfoldable pub redact_blocks : List RequestBlock → List RequestBlock × Bool
    unfolding redact_block
    redact_blocks [] = ([], false)
    redact_blocks (b ∷ bs) =
        let (b', changed) = redact_block b in
        let (bs', more) = redact_blocks bs in (b' ∷ bs', changed || more)

    abbrev pub encode_content : List RequestBlock → String
    encode_content [] = encode_blocks []
    encode_content (b ∷ []) =
        if b.kind == "text" then encode_text b.text else encode_blocks (b ∷ [])
    encode_content (b ∷ c ∷ bs) = encode_blocks (b ∷ c ∷ bs)

    abbrev pub redact_content : String → Option (List RequestBlock) → String
    redact_content raw none = raw
    redact_content raw (some bs) =
        let (bs', changed) = redact_blocks bs in if changed then encode_content bs' else raw

    unfoldable pub redact_messages : List ApiMessage → List ApiMessage
    unfolding redact_blocks
    redact_messages [] = []
    redact_messages (am ∷ ams) =
        record am {
          content = redact_content am.content (blocks_from_raw as_text as_blocks am.content);
        }
        ∷ redact_messages ams

    abbrev pub redact_system_blocks : List RequestBlock → List RequestBlock
    redact_system_blocks bs =
        map
          (λ (b : RequestBlock). if b.kind == "text" then record b { text = redact b.text } else b)
          bs

    abbrev pub redact_system : String → String
    redact_system raw =
        if system_text as_text as_blocks raw == "" then raw else elim (as_text raw) [
          | some s ↦ encode_text (redact s)
          | none ↦ elim (blocks_from_raw as_text as_blocks raw) [
            | none ↦ raw
            | some bs ↦ encode_blocks (redact_system_blocks bs)
          ]
        ]

    unfoldable pub redact_request_text : MessagesRequest → MessagesRequest
    unfolding redact_messages
    redact_request_text m = record m {
      system = if m.system == "" then m.system else redact_system m.system;
      messages = redact_messages m.messages;
    }
