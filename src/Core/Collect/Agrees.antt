-- ===== src/Core/Collect/Agrees.antt =====
-- internal/core/collect.go and internal/core/stream.go: a client that asks for a stream and one that
-- does not are told the same.
use claude_code_gateway.Prelude.{
  ℕ, ◌≡◌, refl, sym, ap, ◌∙◌, String, Bool, List, [], ◌∷◌, ◌++◌, Option, none, some, either_branch,
  either_branches, ◌==◌, string_eq, Bool-cases, inl, inr, ◌+◌, if◌then◌else◌,
}
use Prim.Native.String.{◌++◌ as str_append}
use text.Mathlib.TextLemmas.{nil-append, append-nil as append-nil-text}
use mathlib.Core.List.{append-nil, append_assoc}
use claude_code_gateway.Prelude.GoMap.{GoMap, keys}
use claude_code_gateway.Prelude.Int.{ℤ}
use claude_code_gateway.Core.Stream.{
  Translator, ToolCall, ChatDelta, Choice, OaiUsage, OaiChunk, Event, message_start, text_start,
  tool_start, text_delta, json_delta, block_stop, message_delta, message_stop, start, ensure_text,
  close_text, add_text, add_arguments, begin_tool, add_call, add_calls, add_delta, add_choice,
  note_usage, note_finish, tool, close_tools, sort_ints, final_usage, finalize, new_translator,
  first_non_empty,
}
use claude_code_gateway.Core.Collect.{
  Collected, nothing, collect_call, collect_calls, collect_text, collect_delta, collect_finish,
  collect_usage, collect_choice, collect_chunk, response, joined, tool_blocks, text_block, or_empty,
  Block, ToolAcc,
}

-- The text that an event carries, and that of all events.
abbrev pub piece : Event → List String
piece (message_start id m i) = []
piece (text_start i) = []
piece (tool_start i id n) = []
piece (text_delta i s) = s ∷ []
piece (json_delta i s) = []
piece (block_stop i) = []
piece (message_delta r o i) = []
piece message_stop = []

abbrev pub pieces : List Event → List String
pieces [] = []
pieces (e ∷ es) = piece e ++ pieces es

pieces-snoc : (es : List Event) (e : Event) → pieces (es ++ e ∷ []) ≡ pieces es ++ piece e
pieces-snoc [] e = append-nil (piece e)
pieces-snoc (x ∷ es) e =
    ap (λ l. piece x ++ l) (pieces-snoc es e) ∙ sym (append_assoc (piece x) (pieces es) (piece e))

pieces_silent : (es : List Event) (e : Event) → piece e ≡ [] → pieces (es ++ e ∷ []) ≡ pieces es
pieces_silent es e h = pieces-snoc es e ∙ ap (λ l. pieces es ++ l) h ∙ append-nil (pieces es)

-- The same text, reason and usage.
pub record Agrees (t : Translator) (c : Collected) : Type 0 where
  pub text : pieces t.out ≡ c.text
  pub stop : t.stop_reason ≡ c.stop
  pub usage_in : t.usage_in ≡ c.input_tokens
  pub usage_out : t.usage_out ≡ c.output_tokens

-- An event without text changes nothing of that.
silent-Agrees :
    (e : Event) (t t' : Translator) (c : Collected)
    → piece e ≡ []
    → t'.out ≡ t.out ++ e ∷ []
    → t'.stop_reason ≡ t.stop_reason
    → t'.usage_in ≡ t.usage_in
    → t'.usage_out ≡ t.usage_out
    → Agrees t c
    → Agrees t' c
silent-Agrees e t t' c no_text out stop i o a = record {
  text = ap pieces out ∙ pieces_silent t.out e no_text ∙ a.text;
  stop = stop ∙ a.stop;
  usage_in = i ∙ a.usage_in;
  usage_out = o ∙ a.usage_out;
}

ensure_text-Agrees : (t : Translator) (c : Collected) → Agrees t c → Agrees (ensure_text t) c
unfolding ensure_text
ensure_text-Agrees t c a =
    either_branch (λ x. Agrees x c) t.open_text (λ _. a)
      (λ _. silent-Agrees (text_start t.next_idx) t _ c refl refl refl refl refl a)

close_text-Agrees : (t : Translator) (c : Collected) → Agrees t c → Agrees (close_text t) c
unfolding close_text
close_text-Agrees t c a =
    either_branch (λ x. Agrees x c) t.open_text
      (λ _. silent-Agrees (block_stop t.text_idx) t _ c refl refl refl refl refl a) (λ _. a)

add_text-Agrees :
    (s : String) (t : Translator) (c : Collected)
    → Agrees t c
    → Agrees (add_text s t) (collect_text s c)
unfolding add_text collect_text
add_text-Agrees s t c a =
    let t' = ensure_text t in
    let a' = ensure_text-Agrees t c a in
    either_branches Agrees (s == "") (λ _. a)
      (λ _. record {
        text = pieces-snoc t'.out (text_delta t'.text_idx s) ∙ ap (λ l. l ++ s ∷ []) a'.text;
        stop = a'.stop;
        usage_in = a'.usage_in;
        usage_out = a'.usage_out;
      })

-- Collecting a call leaves the text, the reason and the usage as they are.
collect_call-Agrees :
    (tc : ToolCall) (t : Translator) (c : Collected) → Agrees t c → Agrees t (collect_call tc c)
unfolding collect_call
collect_call-Agrees tc t c a = record {
  text = a.text;
  stop = a.stop;
  usage_in = a.usage_in;
  usage_out = a.usage_out;
}

add_arguments-Agrees :
    (s : String) (i : ℕ) (t : Translator) (c : Collected)
    → Agrees t c
    → Agrees (add_arguments s i t) c
unfolding add_arguments
add_arguments-Agrees s i t c a =
    either_branch (λ x. Agrees x c) (s == "") (λ _. a)
      (λ _. silent-Agrees (json_delta i s) t _ c refl refl refl refl refl a)

module _ (rand_hex : ℕ → ℕ → String) where
  begin_tool-Agrees :
      (tc : ToolCall) (t : Translator) (c : Collected)
      → Agrees t c
      → Agrees (begin_tool rand_hex tc t) c
  unfolding begin_tool
  begin_tool-Agrees tc t c a = silent-Agrees (tool_start _ _ _) t _ c refl refl refl refl refl a

  add_call-Agrees :
      (tc : ToolCall) (t : Translator) (c : Collected)
      → Agrees t c
      → Agrees (add_call rand_hex tc t) c
  unfolding add_call
  add_call-Agrees tc t c a =
      either_branch (λ x. Agrees x c) (tool tc.index t).started
        (λ _.
          add_arguments-Agrees tc.arguments _ _ c (record {
            text = a.text;
            stop = a.stop;
            usage_in = a.usage_in;
            usage_out = a.usage_out;
          }))
        (λ _.
          add_arguments-Agrees tc.arguments _ _ c
            (begin_tool-Agrees tc (close_text t) c (close_text-Agrees t c a)))

  add_calls-Agrees :
      (tcs : List ToolCall) (t : Translator) (c : Collected)
      → Agrees t c
      → Agrees (add_calls rand_hex tcs t) (collect_calls tcs c)
  unfolding add_calls collect_calls
  add_calls-Agrees [] t c a = a
  add_calls-Agrees (tc ∷ tcs) t c a =
      add_calls-Agrees tcs _ _ (collect_call-Agrees tc _ c (add_call-Agrees tc t c a))

  add_delta-Agrees :
      (d : Option ChatDelta) (t : Translator) (c : Collected)
      → Agrees t c
      → Agrees (add_delta rand_hex d t) (collect_delta d c)
  unfolding add_delta
  add_delta-Agrees none t c a = a
  add_delta-Agrees (some d) t c a =
      add_calls-Agrees d.tool_calls _ _ (add_text-Agrees d.content t c a)

  note_finish-Agrees :
      (f : Option String) (t : Translator) (c : Collected)
      → Agrees t c
      → Agrees (note_finish rand_hex f t) (collect_finish f c)
  note_finish-Agrees none t c a = a
  note_finish-Agrees (some f) t c a =
      either_branches Agrees (f == "") (λ _. a)
        (λ _. record { text = a.text; stop = refl; usage_in = a.usage_in; usage_out = a.usage_out })

  note_usage-Agrees :
      (u : Option OaiUsage) (t : Translator) (c : Collected)
      → Agrees t c
      → Agrees (note_usage rand_hex u t) (collect_usage u c)
  note_usage-Agrees none t c a = a
  note_usage-Agrees (some u) t c a = record {
    text = a.text;
    stop = a.stop;
    usage_in = refl;
    usage_out = refl;
  }

  add_choice-Agrees :
      (chs : List Choice) (t : Translator) (c : Collected)
      → Agrees t c
      → Agrees (add_choice rand_hex chs t) (collect_choice chs c)
  unfolding add_choice
  add_choice-Agrees [] t c a = a
  add_choice-Agrees (ch ∷ chs) t c a =
      note_finish-Agrees ch.finish_reason _ _ (add_delta-Agrees ch.delta t c a)

  -- What the two do with the chunks of a stream.
  unfoldable pub feed : List OaiChunk → Translator → Translator
  unfolding add_choice
  feed [] t = t
  feed (ch ∷ chs) t = feed chs (add_choice rand_hex ch.choices (note_usage rand_hex ch.usage t))

  unfoldable pub gather : List OaiChunk → Collected → Collected
  unfolding collect_chunk
  gather [] c = c
  gather (ch ∷ chs) c = gather chs (collect_chunk ch c)

  feed-Agrees :
      (chs : List OaiChunk) (t : Translator) (c : Collected)
      → Agrees t c
      → Agrees (feed chs t) (gather chs c)
  unfolding feed gather collect_chunk
  feed-Agrees [] t c a = a
  feed-Agrees (ch ∷ chs) t c a = feed-Agrees chs _ _ (
      add_choice-Agrees ch.choices _ _ (
        note_usage-Agrees ch.usage t (record c { model = first_non_empty ch.model c.model })
          (record {
            text = a.text;
            stop = a.stop;
            usage_in = a.usage_in;
            usage_out = a.usage_out;
          })))

start-Agrees :
    (rand_hex : ℕ → ℕ → String) (model : String)
    → Agrees (start (new_translator rand_hex model)) nothing
unfolding start new_translator
start-Agrees rand_hex model = record { text = refl; stop = refl; usage_in = refl; usage_out = refl }

close_tools-Agrees :
    (ks : List ℤ) (t : Translator) (c : Collected) → Agrees t c → Agrees (close_tools ks t) c
unfolding close_tools
close_tools-Agrees [] t c a = a
close_tools-Agrees (k ∷ ks) t c a = close_tools-Agrees ks _ c (
    either_branch (λ x. Agrees x c) (tool k t).started
      (λ _. silent-Agrees (block_stop (tool k t).a_idx) t _ c refl refl refl refl refl a) (λ _. a))

-- One text of many, and the text of a message.
abbrev pub concat : List String → String
concat [] = ""
concat (s ∷ ss) = str_append s (concat ss)

abbrev pub texts_of : List Block → List String
texts_of [] = []
texts_of (b ∷ bs) = if b.kind == "text" then b.text ∷ texts_of bs else texts_of bs

joined-concat : (ss : List String) → joined ss ≡ concat ss
joined-concat [] = refl
joined-concat (s ∷ ss) = ap (str_append s) (joined-concat ss)

module _ (rand_hex : ℕ → ℕ → String) (decode : String → Option OaiChunk)
    (valid : String → Bool) where
  texts_of-tool_blocks :
      (k : ℕ) (is : List ℤ) (tools : GoMap ℤ ToolAcc)
      → texts_of (tool_blocks rand_hex decode valid k is tools) ≡ []
  unfolding tool_blocks
  texts_of-tool_blocks k [] tools = refl
  texts_of-tool_blocks k (i ∷ is) tools = texts_of-tool_blocks (k + 1) is tools

  concat-or_empty :
      (bs : List Block)
      → concat (texts_of (or_empty rand_hex decode valid bs)) ≡ concat (texts_of bs)
  concat-or_empty [] = nil-append ""
  concat-or_empty (b ∷ bs) = refl

  -- The text of the message is what was collected.
  concat-response :
      (c : Collected) → concat (texts_of (response rand_hex decode valid c).content) ≡ concat c.text
  unfolding response
  concat-response c =
      let text = joined c.text in
      let tools = tool_blocks rand_hex decode valid 1 (sort_ints c.order) c.tools in
      concat-or_empty
        ((if text == "" then [] else text_block rand_hex decode valid text ∷ []) ++ tools)
      ∙ elim (Bool-cases (text == "")) [
        | inl empty ↦ rw empty (
            ap concat (texts_of-tool_blocks 1 (sort_ints c.order) c.tools)
            ∙ sym ((string_eq.same_key_iff text "").0 empty)
            ∙ joined-concat c.text)
        | inr given ↦ rw given (
            ap (λ l. concat (text ∷ l)) (texts_of-tool_blocks 1 (sort_ints c.order) c.tools)
            ∙ append-nil-text text
            ∙ joined-concat c.text)
      ]

-- A client that reads the stream of a message and one that is sent the message as a whole are told the
-- same text, whatever the chunks are: the texts of the deltas, put together, are the text of the message;
-- and the stream ends with the stop reason and the input tokens of the message. (Calls of tools and output
-- tokens are not compared.)
pub feed-gather :
    (rand_hex : ℕ → ℕ → String) (decode : String → Option OaiChunk) (valid : String → Bool)
    (model : String) (chs : List OaiChunk)
    → let t = finalize (feed rand_hex chs (start (new_translator rand_hex model))) in
      let c = gather rand_hex chs nothing in
      let r = response rand_hex decode valid c in
      (concat (pieces t.out) ≡ concat (texts_of r.content))
      × (es : List Event) × (output : ℤ) × (t.out
          ≡ (es ++ message_delta r.stop_reason output r.input_tokens ∷ []) ++ message_stop ∷ [])
unfolding finalize response final_usage
feed-gather rand_hex decode valid model chs =
    let t = feed rand_hex chs (start (new_translator rand_hex model)) in
    let c = gather rand_hex chs nothing in
    let a =
      feed-Agrees rand_hex chs (start (new_translator rand_hex model)) nothing
        (start-Agrees rand_hex model) in
    let no_text = close_text t in
    let closed = close_tools (sort_ints (keys no_text.tools)) no_text in
    let a' =
      close_tools-Agrees (sort_ints (keys no_text.tools)) no_text c (close_text-Agrees t c a) in
    let o = (final_usage closed).completion_tokens in
    let ends =
      λ (r : String) (i : ℤ). (closed.out ++ message_delta r o i ∷ []) ++ message_stop ∷ [] in
    (
      ap concat (
            pieces_silent (closed.out ++ message_delta _ o closed.usage_in ∷ []) message_stop refl
            ∙ pieces_silent closed.out (message_delta _ o closed.usage_in) refl
            ∙ a'.text)
          ∙ sym (concat-response rand_hex decode valid c),
      closed.out,
      o,
      ap (λ r. ends (first_non_empty r "end_turn") closed.usage_in) a.stop
          ∙ ap (ends (first_non_empty c.stop "end_turn")) a'.usage_in,
    )
