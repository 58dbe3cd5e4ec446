-- ===== src/Core/Inbound/Back.antt =====
-- A conversation of texts, calls and results, translated to Anthropic's form and back to OpenAI's, as it is
-- for a client and a provider that both speak OpenAI's protocol.
use claude_code_gateway.Prelude.{
  ℕ, ◌+◌, String, Bool, true, false, none, some, List, [], ◌∷◌, ◌++◌, map, All, ◌≡◌, refl, ap, ◌∙◌,
  subst, if◌then◌else◌, ◌==◌, string_eq, ◌||◌, sym,
}
use claude_code_gateway.Core.Respond.{OaiToolCall, or_braces}
use claude_code_gateway.Core.Request.{
  RequestBlock, ApiMessage, OutMessage, MessageContent, just_text, no_content, text_block_of,
  texts_in, calls_in, assistant_message, user_messages, messages_of, blocks_from_raw, message_of,
  decoded, join, unless_empty, assistant_content, flatten_content,
}
use claude_code_gateway.Core.Inbound.{
  InMessage, InRequest, InCodec, call_block, result_block, assistant_blocks, marshal_blocks,
  blocks_of_message, message_in, user_blocks, read_messages, to_anthropic,
}

-- What is said in such a conversation.
pub data Said : Type 0 where
  user_says : String → Said
  assistant_says : String → List OaiToolCall → Said
  tool_says : String → String → Said

-- The message to the provider.
abbrev pub meant : Said → OutMessage
meant (user_says t) = record {
  role = "user";
  content = just_text t;
  tool_call_id = "";
  tool_calls = [];
}
meant (assistant_says t calls) = record {
  role = "assistant";
  content = if t == "" then no_content else just_text t;
  tool_call_id = "";
  tool_calls = calls;
}
meant (tool_says id t) = record {
  role = "tool";
  content = just_text t;
  tool_call_id = id;
  tool_calls = [];
}

-- A call that says which it is and has arguments, neither empty nor `null`.
abbrev pub IsCall : OaiToolCall → Type 0
IsCall c = ((c.id == "") ≡ false) × (or_braces c.arguments ≡ c.arguments)

abbrev saying : MessageContent → List OaiToolCall → OutMessage
saying content calls = record {
  role = "assistant";
  content = content;
  tool_call_id = "";
  tool_calls = calls;
}

texts_in-call_block : (cs : List OaiToolCall) → texts_in (map call_block cs) ≡ []
unfolding texts_in
texts_in-call_block [] = refl
texts_in-call_block (c ∷ cs) = texts_in-call_block cs

calls_in-call_block :
    (rand : ℕ → String) (k : ℕ) (cs : List OaiToolCall)
    → All IsCall cs
    → calls_in rand k (map call_block cs) ≡ cs
unfolding calls_in
calls_in-call_block rand k [] ok = refl
calls_in-call_block rand k (c ∷ cs) ok =
    rw ok.0.0 (rw ok.0.1 (ap (◌∷◌ c) (calls_in-call_block rand (k + 1) cs ok.1)))

module _ (codec : InCodec) where
  -- The message of the client.
  abbrev pub told : Said → InMessage
  told (user_says t) = record {
    role = "user";
    content = codec.encode_text t;
    tool_calls = [];
    tool_call_id = "";
  }
  told (assistant_says t calls) = record {
    role = "assistant";
    content = codec.encode_text t;
    tool_calls = calls;
    tool_call_id = "";
  }
  told (tool_says id t) = record {
    role = "tool";
    content = codec.encode_text t;
    tool_calls = [];
    tool_call_id = id;
  }

  -- Texts are decoded as they were encoded.
  pub record IsFaithful : Type 0 where
    pub text_back : (s : String) → codec.as_text (codec.encode_text s) ≡ some s
    pub no_null :
        (s : String) → (codec.encode_text s == "" || codec.encode_text s == "null") ≡ false

  -- Blocks that are not none, and are decoded as they were encoded.
  abbrev pub IsCoded : List RequestBlock → Type 0
  IsCoded [] = ⊥
  IsCoded (b ∷ bs) =
      (raw : String) × (codec.encode_blocks (b ∷ bs) ≡ some raw)
      × ((raw == "") ≡ false)
      × (codec.as_text raw ≡ none)
      × (codec.as_blocks raw ≡ some (b ∷ bs))

  abbrev pub IsSaid : Said → Type 0
  IsSaid (user_says t) =
      ((t == "") ≡ false) × IsCoded (blocks_of_message codec (told (user_says t)))
  IsSaid (assistant_says t calls) =
      All IsCall calls × IsCoded (blocks_of_message codec (told (assistant_says t calls)))
  IsSaid (tool_says id t) = IsCoded (blocks_of_message codec (told (tool_says id t)))

  blocks_from_raw-marshal_blocks :
      (bs : List RequestBlock)
      → IsCoded bs
      → blocks_from_raw codec.as_text codec.as_blocks (marshal_blocks codec bs) ≡ some bs
  unfolding blocks_from_raw
  blocks_from_raw-marshal_blocks [] h = elim h [ ]
  blocks_from_raw-marshal_blocks (b ∷ bs) (raw, encodes, filled, no_text, decodes) =
      let written : marshal_blocks codec (b ∷ bs) ≡ raw = rw encodes refl in
      subst (λ r. blocks_from_raw codec.as_text codec.as_blocks r ≡ some (b ∷ bs)) (sym written)
        (rw filled (rw no_text decodes))

  IsSaid-IsCoded : (s : Said) → IsSaid s → IsCoded (blocks_of_message codec (told s))
  IsSaid-IsCoded (user_says t) h = h.1
  IsSaid-IsCoded (assistant_says t calls) h = h.1
  IsSaid-IsCoded (tool_says id t) h = h

  assistant_blocks-encode_text :
      (t : String)
      → IsFaithful
      → assistant_blocks codec (codec.encode_text t)
        ≡ (if t == "" then [] else text_block_of t ∷ [])
  assistant_blocks-encode_text t f = rw (f.text_back t, assistant_blocks) refl

  -- What an assistant says, by whether it says a text.
  assistant_message-with_text :
      (rand : ℕ → String) (t : String) (calls : List OaiToolCall)
      → All IsCall calls
      → (t == "") ≡ false
      → assistant_message rand (text_block_of t ∷ map call_block calls)
        ≡ record {
          role = "assistant";
          content = just_text t;
          tool_call_id = "";
          tool_calls = calls;
        }
          ∷ []
  unfolding assistant_message texts_in calls_in join
  assistant_message-with_text rand t calls ok filled =
      rw filled
        (rw (texts_in-call_block calls) (rw (calls_in-call_block rand (0 + 1) calls ok) refl))

  assistant_message-calls :
      (rand : ℕ → String) (c : OaiToolCall) (cs : List OaiToolCall)
      → All IsCall (c ∷ cs)
      → assistant_message rand (map call_block (c ∷ cs))
        ≡ record {
          role = "assistant";
          content = no_content;
          tool_call_id = "";
          tool_calls = c ∷ cs;
        }
          ∷ []
  unfolding assistant_message
  assistant_message-calls rand c cs ok =
      ap
        (λ ts.
          unless_empty (saying (assistant_content ts) (calls_in rand 0 (map call_block (c ∷ cs)))))
        (texts_in-call_block (c ∷ cs))
      ∙ ap (λ l. unless_empty (saying no_content l)) (calls_in-call_block rand 0 (c ∷ cs) ok)

  assistant_message-said :
      (rand : ℕ → String) (t : String) (calls : List OaiToolCall) (b : Bool)
      → All IsCall calls
      → (t == "") ≡ b
      → IsCoded ((if b then [] else text_block_of t ∷ []) ++ map call_block calls)
      → assistant_message rand ((if b then [] else text_block_of t ∷ []) ++ map call_block calls)
        ≡ record {
          role = "assistant";
          content = if b then no_content else just_text t;
          tool_call_id = "";
          tool_calls = calls;
        }
          ∷ []
  assistant_message-said rand t [] true ok e coded = elim coded [ ]
  assistant_message-said rand t (c ∷ cs) true ok e coded = assistant_message-calls rand c cs ok
  assistant_message-said rand t calls false ok e coded =
      assistant_message-with_text rand t calls ok e

  assistant_message-blocks :
      (rand : ℕ → String) (t : String) (calls : List OaiToolCall)
      → IsFaithful
      → All IsCall calls
      → IsCoded (blocks_of_message codec (told (assistant_says t calls)))
      → assistant_message rand (blocks_of_message codec (told (assistant_says t calls)))
        ≡ meant (assistant_says t calls) ∷ []
  assistant_message-blocks rand t calls f ok coded =
      subst
        (λ bs.
          IsCoded (bs ++ map call_block calls)
          → assistant_message rand (bs ++ map call_block calls)
            ≡ meant (assistant_says t calls) ∷ [])
        (sym (assistant_blocks-encode_text t f))
        (assistant_message-said rand t calls (t == "") ok refl) coded

  flatten_content-encode_text :
      (t : String)
      → IsFaithful
      → flatten_content codec.as_text codec.as_blocks (codec.encode_text t) ≡ t
  unfolding flatten_content
  flatten_content-encode_text t f = rw (f.no_null t) (rw (f.text_back t) refl)

  user_blocks-encode_text :
      (t : String) → IsFaithful → user_blocks codec (codec.encode_text t) ≡ text_block_of t ∷ []
  unfolding user_blocks
  user_blocks-encode_text t f = rw (f.text_back t, user_blocks) refl

  user_messages-text :
      (t : String)
      → (t == "") ≡ false
      → user_messages codec.as_text codec.as_blocks [] (text_block_of t ∷ [])
        ≡ meant (user_says t) ∷ []
  unfolding user_messages
  user_messages-text t filled = rw filled refl

  user_messages-result :
      (id t : String)
      → IsFaithful
      → user_messages codec.as_text codec.as_blocks [] (result_block (told (tool_says id t)) ∷ [])
        ≡ meant (tool_says id t) ∷ []
  unfolding user_messages
  user_messages-result id t f = rw (flatten_content-encode_text t f) refl

  message_of-told :
      (rand : ℕ → String) (s : Said)
      → IsFaithful
      → IsSaid s
      → message_of codec.as_text codec.as_blocks rand
          (message_in codec (told s)).role
          (blocks_of_message codec (told s))
        ≡ meant s ∷ []
  unfolding message_in
  message_of-told rand (user_says t) f h =
      subst (λ bs. user_messages codec.as_text codec.as_blocks [] bs ≡ meant (user_says t) ∷ [])
        (sym (user_blocks-encode_text t f)) (user_messages-text t h.0)
  message_of-told rand (assistant_says t calls) f h =
      assistant_message-blocks rand t calls f h.0 h.1
  message_of-told rand (tool_says id t) f h = user_messages-result id t f

  message_in-content :
      (s : Said)
      → (message_in codec (told s)).content
        ≡ marshal_blocks codec (blocks_of_message codec (told s))
  unfolding message_in
  message_in-content s = refl

  -- None of the messages is the system's.
  read_messages-told :
      (ms : List Said)
      → read_messages codec "" (map told ms)
        ≡ ("", map (λ (s : Said). message_in codec (told s)) ms)
  unfolding read_messages
  read_messages-told [] = refl
  read_messages-told (user_says t ∷ ms) = rw (read_messages-told ms) refl
  read_messages-told (assistant_says t calls ∷ ms) = rw (read_messages-told ms) refl
  read_messages-told (tool_says id t ∷ ms) = rw (read_messages-told ms) refl

  messages_of-told :
      (rand : ℕ → ℕ → String) (n : ℕ) (ms : List Said)
      → IsFaithful
      → All IsSaid ms
      → messages_of codec.as_text codec.as_blocks rand n
          (map (λ (s : Said). message_in codec (told s)) ms)
        ≡ some (map meant ms)
  unfolding messages_of message_in
  messages_of-told rand n [] f h = refl
  messages_of-told rand n (s ∷ ms) f h =
      let am : ApiMessage = message_in codec (told s) in
      let bs : List RequestBlock = blocks_of_message codec (told s) in
      ap
        (λ o. decoded codec.as_text codec.as_blocks (rand n) am.role o (
          messages_of codec.as_text codec.as_blocks rand (n + 1)
            (map (λ (s : Said). message_in codec (told s)) ms)))
        (blocks_from_raw-marshal_blocks bs (IsSaid-IsCoded s h.0))
      ∙ ap (λ rest. decoded codec.as_text codec.as_blocks (rand n) am.role (some bs) rest)
          (messages_of-told rand (n + 1) ms f h.1)
      ∙ ap (λ l. some (l ++ map meant ms)) (message_of-told (rand n) s f h.0)

  -- Where texts, and the blocks that are written, are decoded as they were encoded: a conversation of
  -- texts of users, of texts and calls of assistants and of results of tools, translated to Anthropic's
  -- form and from there to OpenAI's, has the same messages in the same order, with the same texts, calls
  -- and identifiers. (Users' texts are not empty, assistants say something, and calls have an identifier
  -- and arguments, neither empty nor `null`.)
  pub messages_of-to_anthropic :
      (rand : ℕ → ℕ → String) (o : InRequest) (ms : List Said)
      → IsFaithful
      → o.messages ≡ map told ms
      → All IsSaid ms
      → messages_of codec.as_text codec.as_blocks rand 0 (to_anthropic codec o).messages
        ≡ some (map meant ms)
  unfolding to_anthropic
  messages_of-to_anthropic rand o ms f e h =
      ap (λ l. messages_of codec.as_text codec.as_blocks rand 0 (read_messages codec "" l).1) e
      ∙ ap (λ r. messages_of codec.as_text codec.as_blocks rand 0 r.1) (read_messages-told ms)
      ∙ messages_of-told rand 0 ms f h
