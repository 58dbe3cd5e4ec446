-- ===== src/Core/Request/Examples.antt =====
-- Runs of internal/core/translate_req.go.
use claude_code_gateway.Prelude.{
  ℕ, String, ◌≡◌, refl, [], ◌∷◌, List, Option, none, some, if◌then◌else◌, ◌==◌, string_eq,
}
use claude_code_gateway.Core.Request.{
  RequestBlock, ApiMessage, OutMessage, text_block_of, messages_of, user_messages,
  assistant_message, blocks_from_raw, flatten_content, flat_texts, texts_in, calls_in, join,
  just_text,
}
use claude_code_gateway.Core.Request.Pieces.{
  conversation, pieces_out, messages_of-conversation, turns_of,
}

program : Unit {0}
unfolding messages_of user_messages assistant_message blocks_from_raw flatten_content flat_texts
    texts_in calls_in join
program = tt

abbrev use_block : RequestBlock
use_block = record (text_block_of "") {
  kind = "tool_use";
  id = "c1";
  name = "read";
  input = "null";
}

abbrev result_block : RequestBlock
result_block = record (text_block_of "") {
  kind = "tool_result";
  tool_use_id = "c1";
  content = "ok";
}

-- A text is decoded as itself, but for two that stand for lists of blocks.
abbrev as_text : String → Option String
as_text s = if s == "USE" then none else if s == "RESULT" then none else some s

abbrev as_blocks : String → Option (List RequestBlock)
as_blocks s =
    if s == "USE"
    then some (text_block_of "let me see" ∷ use_block ∷ [])
    else some (text_block_of "before" ∷ result_block ∷ text_block_of "after" ∷ [])

abbrev random : ℕ → ℕ → String
random n k = "00"

abbrev chat : List ApiMessage
chat =
    record { role = "user"; content = "hi" }
    ∷ record { role = "assistant"; content = "USE" }
    ∷ record { role = "user"; content = "RESULT" }
    ∷ []

abbrev user : String → OutMessage
user s = record { role = "user"; content = just_text s; tool_call_id = ""; tool_calls = [] }

-- The result of a tool stands between the texts around it.
translated :
    messages_of as_text as_blocks random 0 chat
    ≡ some (
        user "hi"
        ∷ record {
          role = "assistant";
          content = just_text "let me see";
          tool_call_id = "";
          tool_calls = record { id = "c1"; name = "read"; arguments = "{}" } ∷ [];
        }
        ∷ user "before"
        ∷ record { role = "tool"; content = just_text "ok"; tool_call_id = "c1"; tool_calls = [] }
        ∷ user "after"
        ∷ [])
unfolding program
translated = refl

abbrev turns : List (String × List RequestBlock)
turns =
    ("user", text_block_of "hi" ∷ [])
    ∷ ("assistant", text_block_of "let me see" ∷ use_block ∷ [])
    ∷ ("user", text_block_of "before" ∷ result_block ∷ text_block_of "after" ∷ [])
    ∷ []

messages_of-conversation_example :
    (ms : List OutMessage) × (messages_of as_text as_blocks random 0 chat ≡ some ms)
    × (pieces_out ms ≡ conversation as_text as_blocks turns)
unfolding program turns_of
messages_of-conversation_example =
    messages_of-conversation as_text as_blocks random chat turns refl (
      ((λ e. absurd (cc)), tt),
      (
        ((λ e. absurd (cc)), ((λ e. refl), tt)),
        (((λ e. absurd (cc)), ((λ e. absurd (cc)), ((λ e. absurd (cc)), tt))), tt),
      ),
    )
