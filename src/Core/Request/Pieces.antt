-- ===== src/Core/Request/Pieces.antt =====
-- What a conversation says, before and after its translation.
use Prim.Native.String.{String, ◌++◌ as str_append}
use text.Mathlib.TextLemmas.{append-nil as append-empty}
use claude_code_gateway.Prelude.{
  ℕ, ◌+◌, true, false, List, [], ◌∷◌, ◌++◌, Option, none, some, map, ◌≡◌, refl, sym, ap, subst, ◌∙◌,
  inl, inr, All, Bool-cases, not, false, Option-cases, either_branch, arith, if◌then◌else◌, ◌==◌,
  string_eq, either_branches,
}
use mathlib.Core.List.{append_assoc, append-nil, map-append}
use claude_code_gateway.Prelude.Text.{cut_prefix, append-cut_prefix}
use claude_code_gateway.Core.Respond.{OaiToolCall, or_braces}
use claude_code_gateway.Core.Request.{
  RequestBlock, ImageSource, ApiMessage, ContentPart, text_part, image_part, MessageContent,
  no_content, just_text, in_parts, OutMessage, join, texts_in, calls_in, image_url, image_parts,
  flush_parts, assistant_content, assistant_message, unless_empty, blocks_from_raw, flatten_content,
  flat_texts, or_no_blocks, user_messages, message_of, messages_of, decoded,
}

-- What one side can tell the other.
pub data Piece : Type 0 where
  said : String → Piece
  shown : String → Piece
  returned : String → String → Piece
  spoke : String → Piece
  called : String → String → String → Piece

abbrev pub part_piece : ContentPart → Piece
part_piece (text_part s) = said s
part_piece (image_part u) = shown u

abbrev pub content_pieces : MessageContent → List Piece
content_pieces no_content = []
content_pieces (just_text s) = said s ∷ []
content_pieces (in_parts ps) = map part_piece ps

abbrev pub spoken : MessageContent → List Piece
spoken (just_text s) = spoke s ∷ []
spoken no_content = []
spoken (in_parts ps) = []

abbrev pub result_of : String → MessageContent → List Piece
result_of id (just_text s) = returned id s ∷ []
result_of id no_content = []
result_of id (in_parts ps) = []

abbrev pub call_piece : OaiToolCall → Piece
call_piece c = called c.id c.name c.arguments

-- What a message of OpenAI's tells, by its role.
abbrev pub pieces_of : OutMessage → List Piece
pieces_of m =
    if m.role == "user"
    then content_pieces m.content
    else if m.role == "tool"
    then result_of m.tool_call_id m.content
    else spoken m.content ++ map call_piece m.tool_calls

pub pieces_out : List OutMessage → List Piece
pieces_out [] = []
pieces_out (m ∷ ms) = pieces_of m ++ pieces_out ms

pieces_out-append :
    (ms ns : List OutMessage) → pieces_out (ms ++ ns) ≡ pieces_out ms ++ pieces_out ns
unfolding pieces_out
pieces_out-append [] ns = refl
pieces_out-append (m ∷ ms) ns =
    ap (λ l. pieces_of m ++ l) (pieces_out-append ms ns)
    ∙ sym (append_assoc (pieces_of m) (pieces_out ms) (pieces_out ns))

-- An image is shown at its address, or by its bytes where it has none.
abbrev pub image_piece : Option ImageSource → List Piece
image_piece none = []
image_piece (some s) =
    if not (s.url == "")
    then shown s.url ∷ []
    else if s.base64 == ""
    then []
    else shown (str_append "data:" (str_append s.media_type (str_append ";base64," s.base64))) ∷ []

not_empty : (t : String) → (str_append "data:" t == "") ≡ false
unfolding cut_prefix
not_empty t = elim (Bool-cases (str_append "data:" t == "")) [
  | inl same ↦
      let e : some t ≡ none =
        sym (append-cut_prefix "data:" t)
        ∙ ap (λ u. cut_prefix u "data:")
            ((string_eq.same_key_iff (str_append "data:" t) "").0 same) in
      absurd (ground arith)
  | inr other ↦ other
]

-- The texts of blocks that say something.
abbrev pub text_in : RequestBlock → List String
text_in b = if b.kind == "text" then if b.text == "" then [] else b.text ∷ [] else []

abbrev pub all_texts : List RequestBlock → List String
all_texts [] = []
all_texts (b ∷ bs) = text_in b ++ all_texts bs

-- A text, and others after it, each after a separator.
abbrev pub followed : String → List String → String
followed sep [] = ""
followed sep (t ∷ ts) = str_append sep (str_append t (followed sep ts))

abbrev pub in_line : String → List String → String
in_line sep [] = ""
in_line sep (t ∷ ts) = str_append t (followed sep ts)

-- What a block in the result of a tool says: its text, or its kind in brackets.
abbrev pub result_texts : List RequestBlock → List String
result_texts [] = []
result_texts (b ∷ bs) =
    (if b.kind == "text" then text_in b else str_append "[" (str_append b.kind "]") ∷ [])
    ++ result_texts bs

texts_in-all_texts : (bs : List RequestBlock) → texts_in bs ≡ all_texts bs
unfolding texts_in
texts_in-all_texts [] = refl
texts_in-all_texts (b ∷ bs) = elim (Bool-cases (b.kind == "text")) [
  | inr other ↦ rw other (texts_in-all_texts bs)
  | inl is_text ↦ elim (Bool-cases (b.text == "")) [
    | inl empty ↦ rw (is_text, empty) (texts_in-all_texts bs)
    | inr given ↦ rw (is_text, given) (ap (λ l. b.text ∷ l) (texts_in-all_texts bs))
  ]
]

flat_texts-result_texts : (bs : List RequestBlock) → flat_texts bs ≡ result_texts bs
unfolding flat_texts
flat_texts-result_texts [] = refl
flat_texts-result_texts (b ∷ bs) = elim (Bool-cases (b.kind == "text")) [
  | inr other ↦
      rw other (ap (λ l. str_append "[" (str_append b.kind "]") ∷ l) (flat_texts-result_texts bs))
  | inl is_text ↦ elim (Bool-cases (b.text == "")) [
    | inl empty ↦ rw (is_text, empty) (flat_texts-result_texts bs)
    | inr given ↦ rw (is_text, given) (ap (λ l. b.text ∷ l) (flat_texts-result_texts bs))
  ]
]

join-in_line : (sep t : String) (ts : List String) → join (t ∷ ts) sep ≡ in_line sep (t ∷ ts)
unfolding join
join-in_line sep t [] = sym (append-empty t)
join-in_line sep t (u ∷ ts) = ap (λ r. str_append t (str_append sep r)) (join-in_line sep u ts)

join-in_line_all : (sep : String) (ts : List String) → join ts sep ≡ in_line sep ts
unfolding join
join-in_line_all sep [] = refl
join-in_line_all sep (t ∷ ts) = join-in_line sep t ts

result_only :
    (k : String) → (k == "tool_result") ≡ true → ((k == "text") ≡ false) × ((k == "image") ≡ false)
result_only k h =
    subst (λ t. ((t == "text") ≡ false) × ((t == "image") ≡ false))
      (sym ((string_eq.same_key_iff k "tool_result").0 h)) (refl, refl)

image_parts-piece : (o : Option ImageSource) → map part_piece (image_parts o) ≡ image_piece o
unfolding image_url
image_parts-piece none = refl
image_parts-piece (some s) = elim (Bool-cases (s.url == "")) [
  | inr given ↦ rw (image_url, given) (rw given refl)
  | inl no_url ↦ elim (Bool-cases (s.base64 == "")) [
    | inl no_bytes ↦ rw (image_url, no_url, no_bytes) (rw no_url refl)
    | inr bytes ↦
        let there = not_empty (str_append s.media_type (str_append ";base64," s.base64)) in
        rw (image_url, no_url, bytes) (rw there refl)
  ]
]

-- The calls of a message of the assistant, in their order.
pub call_pieces : List RequestBlock → List Piece
call_pieces [] = []
call_pieces (b ∷ bs) =
    let rest = call_pieces bs in
    if b.kind == "tool_use" then called b.id b.name (or_braces b.input) ∷ rest else rest

abbrev pub speech : List String → List Piece
speech [] = []
speech (t ∷ ts) = spoke (in_line "\n\n" (t ∷ ts)) ∷ []

-- Each call has an identifier.
abbrev pub AreNamed : List RequestBlock → Type 0
AreNamed bs = All (λ b. (b.kind == "tool_use") ≡ true → (b.id == "") ≡ false) bs

call_pieces-calls_in :
    (rand : ℕ → String) (k : ℕ) (bs : List RequestBlock)
    → AreNamed bs
    → map call_piece (calls_in rand k bs) ≡ call_pieces bs
unfolding calls_in call_pieces
call_pieces-calls_in rand k [] h = refl
call_pieces-calls_in rand k (b ∷ bs) h = elim (Bool-cases (b.kind == "tool_use")) [
  | inr other ↦ rw other (call_pieces-calls_in rand (k + 1) bs h.1)
  | inl same ↦
      rw (same, h.0 same)
        (ap (λ l. called b.id b.name (or_braces b.input) ∷ l)
          (call_pieces-calls_in rand (k + 1) bs h.1))
]

unless_empty-pieces :
    (ts : List String) (cs : List OaiToolCall)
    → pieces_out (
        unless_empty (record {
          role = "assistant";
          content = assistant_content ts;
          tool_call_id = "";
          tool_calls = cs;
        }))
      ≡ speech ts ++ map call_piece cs
unfolding pieces_out
unless_empty-pieces [] [] = refl
unless_empty-pieces [] (c ∷ cs) = append-nil _
unless_empty-pieces (t ∷ ts) cs =
    append-nil _ ∙ ap (λ x. spoke x ∷ map call_piece cs) (join-in_line "\n\n" t ts)

-- The assistant's message.
assistant_message-pieces :
    (rand : ℕ → String) (bs : List RequestBlock)
    → AreNamed bs
    → pieces_out (assistant_message rand bs) ≡ speech (all_texts bs) ++ call_pieces bs
unfolding assistant_message pieces_out
assistant_message-pieces rand bs h =
    unless_empty-pieces (texts_in bs) (calls_in rand 0 bs)
    ∙ ap (λ l. speech (texts_in bs) ++ l) (call_pieces-calls_in rand 0 bs h)
    ∙ ap (λ ts. speech ts ++ call_pieces bs) (texts_in-all_texts bs)

module _ (as_text : String → Option String) (as_blocks : String → Option (List RequestBlock)) where
  -- The text of a result: a JSON text, or what its blocks say, line by line.
  abbrev pub result_lines : Option (List RequestBlock) → String
  result_lines none = ""
  result_lines (some bs) = in_line "\n" (result_texts bs)

  abbrev pub result_text : String → String
  result_text raw =
      if raw == "null"
      then ""
      else if raw == ""
      then ""
      else elim (as_text raw) [ some s ↦ s | none ↦ result_lines (as_blocks raw) ]

  result_lines-join :
      (o : Option (List RequestBlock))
      → join (flat_texts (or_no_blocks as_text as_blocks o)) "\n" ≡ result_lines o
  unfolding join flat_texts
  result_lines-join none = refl
  result_lines-join (some bs) =
      join-in_line_all "\n" (flat_texts bs) ∙ ap (in_line "\n") (flat_texts-result_texts bs)

  flatten_content-result_text :
      (raw : String) → flatten_content as_text as_blocks raw ≡ result_text raw
  unfolding flatten_content blocks_from_raw
  flatten_content-result_text raw = elim (Bool-cases (raw == "")) [
    | inl empty ↦ rw empty (either_branch (λ x. "" ≡ x) (raw == "null") (λ _. refl) (λ _. refl))
    | inr some_raw ↦ elim (Bool-cases (raw == "null")) [
      | inl is_null ↦ rw (some_raw, is_null) refl
      | inr given ↦ elim (Option-cases (as_text raw)) [
        | inl none' ↦
            rw (some_raw, given, none') (rw some_raw (rw none' (result_lines-join (as_blocks raw))))
        | inr (s, read) ↦ rw (some_raw, given, read) refl
      ]
    ]
  ]

  -- What a message of the user tells, block by block.
  pub user_pieces : List RequestBlock → List Piece
  user_pieces [] = []
  user_pieces (b ∷ bs) =
      (if b.kind == "text"
        then if b.text == "" then [] else said b.text ∷ []
        else if b.kind == "image"
        then image_piece b.source
        else if b.kind == "tool_result"
        then returned b.tool_use_id (result_text b.content) ∷ []
        else [])
      ++ user_pieces bs

  flush_parts-pieces : (ps : List ContentPart) → pieces_out (flush_parts ps) ≡ map part_piece ps
  unfolding pieces_out
  flush_parts-pieces [] = refl
  flush_parts-pieces (text_part s ∷ []) = refl
  flush_parts-pieces (image_part u ∷ []) = refl
  flush_parts-pieces (p ∷ q ∷ ps) = append-nil _

  added :
      (parts more : List ContentPart) (bs : List RequestBlock)
      → map part_piece (parts ++ more) ++ user_pieces bs
        ≡ map part_piece parts ++ (map part_piece more ++ user_pieces bs)
  added parts more bs =
      ap (λ l. l ++ user_pieces bs) (map-append part_piece parts more)
      ∙ append_assoc (map part_piece parts) (map part_piece more) (user_pieces bs)

  user_messages-pieces :
      (parts : List ContentPart) (bs : List RequestBlock)
      → pieces_out (user_messages as_text as_blocks parts bs)
        ≡ map part_piece parts ++ user_pieces bs
  unfolding user_messages user_pieces pieces_out
  user_messages-pieces parts [] = flush_parts-pieces parts ∙ sym (append-nil _)
  user_messages-pieces parts (b ∷ bs) = elim (Bool-cases (b.kind == "tool_result")) [
    | inl result ↦
        let (no_text, no_image) = result_only b.kind result in
        let back : Piece = returned b.tool_use_id (result_text b.content) in
        let after = pieces_out (user_messages as_text as_blocks [] bs) in
        rw (result, no_text, no_image, flatten_content-result_text b.content)
          (pieces_out-append (flush_parts parts) _
            ∙ ap (λ l. l ++ back ∷ after) (flush_parts-pieces parts)
            ∙ ap (λ l. map part_piece parts ++ back ∷ l) (user_messages-pieces [] bs))
    | inr other ↦ elim (Bool-cases (b.kind == "text")) [
      | inl is_text ↦ elim (Bool-cases (b.text == "")) [
        | inl empty ↦ rw (other, is_text, empty) (user_messages-pieces parts bs)
        | inr given ↦
            rw (other, is_text, given)
              (user_messages-pieces (parts ++ text_part b.text ∷ []) bs
                ∙ added parts (text_part b.text ∷ []) bs)
      ]
      | inr no_text ↦ elim (Bool-cases (b.kind == "image")) [
        | inl is_image ↦
            rw (other, no_text, is_image)
              (user_messages-pieces (parts ++ image_parts b.source) bs
                ∙ added parts (image_parts b.source) bs
                ∙ ap (λ l. map part_piece parts ++ (l ++ user_pieces bs))
                    (image_parts-piece b.source))
        | inr no_image ↦ rw (other, no_text, no_image) (user_messages-pieces parts bs)
      ]
    ]
  ]

  -- A message as it is decoded: its role and its blocks.
  abbrev pub Turn : Type 0
  Turn = String × List RequestBlock

  abbrev pub first_turn :
      String → Option (List RequestBlock) → Option (List Turn) → Option (List Turn)
  first_turn role none rest = none
  first_turn role (some bs) none = none
  first_turn role (some bs) (some rest) = some ((role, bs) ∷ rest)

  unfoldable pub turns_of : List ApiMessage → Option (List Turn)
  turns_of [] = some []
  turns_of (am ∷ ams) =
      first_turn am.role (blocks_from_raw as_text as_blocks am.content) (turns_of ams)

  abbrev pub turn_pieces : Turn → List Piece
  turn_pieces (role, bs) =
      if role == "assistant" then speech (all_texts bs) ++ call_pieces bs else user_pieces bs

  pub conversation : List Turn → List Piece
  conversation [] = []
  conversation (t ∷ ts) = turn_pieces t ++ conversation ts

  message_of-pieces :
      (rand : ℕ → String) (role : String) (bs : List RequestBlock)
      → AreNamed bs
      → pieces_out (message_of as_text as_blocks rand role bs) ≡ turn_pieces (role, bs)
  message_of-pieces rand role bs h =
      either_branches (λ ms ps. pieces_out ms ≡ ps) (role == "assistant")
        (λ _. assistant_message-pieces rand bs h) (λ _. user_messages-pieces [] bs)

  -- What the messages come to, for the turns that they decode to: an error where one of them does not
  -- decode, and messages that tell the same otherwise.
  abbrev pub Tells : Option (List Turn) → Option (List OutMessage) → Type 0
  Tells none o = o ≡ none
  Tells (some ts) o =
      All (λ (t : Turn). AreNamed t.1) ts
      → (ms : List OutMessage) × (o ≡ some ms) × (pieces_out ms ≡ conversation ts)

  decoded-Tells :
      (rand : ℕ → String) (role : String) (o : Option (List RequestBlock)) (ts : Option (List Turn))
      (rest : Option (List OutMessage))
      → Tells ts rest
      → Tells (first_turn role o ts) (decoded as_text as_blocks rand role o rest)
  unfolding conversation
  decoded-Tells rand role none ts rest h = refl
  decoded-Tells rand role (some bs) none rest h = rw h
  decoded-Tells rand role (some bs) (some ts) rest h = λ named.
      let (ms, found, same) = h named.1 in
      let first = message_of as_text as_blocks rand role bs in
      (
        first ++ ms,
        rw found,
        pieces_out-append first ms
            ∙ ap (λ l. l ++ pieces_out ms) (message_of-pieces rand role bs named.0)
            ∙ ap (λ l. turn_pieces (role, bs) ++ l) same,
      )

  messages_of-Tells :
      (rand : ℕ → ℕ → String) (n : ℕ) (ams : List ApiMessage)
      → Tells (turns_of ams) (messages_of as_text as_blocks rand n ams)
  unfolding messages_of turns_of conversation pieces_out
  messages_of-Tells rand n [] = λ named. ([], refl, refl)
  messages_of-Tells rand n (am ∷ ams) =
      decoded-Tells (rand n) am.role (blocks_from_raw as_text as_blocks am.content) (turns_of ams)
        (messages_of as_text as_blocks rand (n + 1) ams) (messages_of-Tells rand (n + 1) ams)

  -- Where the content of each message decodes and each call of a tool has an identifier: the
  -- translation succeeds, and its messages tell the same pieces in the same order: each text and image
  -- of the user, each result of a tool with the identifier of its call, the texts of each turn of
  -- the assistant, and its calls with their identifiers, names and arguments.
  pub messages_of-conversation :
      (rand : ℕ → ℕ → String) (ams : List ApiMessage) (ts : List Turn)
      → turns_of ams ≡ some ts
      → All (λ (t : Turn). AreNamed t.1) ts
      → (ms : List OutMessage) × (messages_of as_text as_blocks rand 0 ams ≡ some ms)
        × (pieces_out ms ≡ conversation ts)
  messages_of-conversation rand ams ts decodes named =
      subst (λ o. Tells o (messages_of as_text as_blocks rand 0 ams)) decodes
        (messages_of-Tells rand 0 ams) named

  -- The translation fails where the content of some message does not decode.
  pub messages_of_error :
      (rand : ℕ → ℕ → String) (ams : List ApiMessage)
      → turns_of ams ≡ none
      → messages_of as_text as_blocks rand 0 ams ≡ none
  messages_of_error rand ams broken =
      subst (λ o. Tells o (messages_of as_text as_blocks rand 0 ams)) broken
        (messages_of-Tells rand 0 ams)
