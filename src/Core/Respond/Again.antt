-- ===== src/Core/Respond/Again.antt =====
-- An answer that is translated, written in OpenAI's form and translated again.
use Prim.Native.String.{String}
use text.Mathlib.TextLemmas.{nil-append}
use claude_code_gateway.Prelude.{
  ℕ, false, ◌||◌, List, [], ◌∷◌, ◌++◌, Option, none, some, ◌==◌, string_eq, All, ◌≡◌, refl,
  either_branch, ◌∙◌, ap, sym,
}
use claude_code_gateway.Core.Stream.{OaiUsage, first_non_empty, stop_from_finish}
use claude_code_gateway.Core.Collect.{Block, MessageResponse}
use claude_code_gateway.Core.Respond.{
  plain, OaiToolCall, ChatResponse, OaiResponse, call_blocks, read_blocks, translate_response,
  to_openai, content_blocks, padded, finish_of, stop_of, message_blocks,
}
use claude_code_gateway.Core.Respond.Calls.{IsPlain, read_blocks-call_blocks}

-- The answer as its client decodes it.
abbrev pub as_reply : OaiResponse → ChatResponse
as_reply o = record {
  model = o.model;
  choices =
      record {
        message = some (record { content = plain o.content; tool_calls = o.tool_calls });
        finish_reason = some o.finish_reason;
      }
      ∷ [];
  usage =
      some (record { prompt_tokens = o.prompt_tokens; completion_tokens = o.completion_tokens });
}

-- An answer with one choice, which has a text, calls and a reason to stop.
abbrev pub reply_of : String → String → List OaiToolCall → Option String → OaiUsage → ChatResponse
reply_of model s tcs f u = record {
  model = model;
  choices =
      record { message = some (record { content = plain s; tool_calls = tcs }); finish_reason = f }
      ∷ [];
  usage = some u;
}

read_blocks-padded : (bs : List Block) → read_blocks (padded bs) "" [] ≡ read_blocks bs "" []
unfolding read_blocks
read_blocks-padded [] = refl
read_blocks-padded (b ∷ bs) = refl

read_blocks-content_blocks :
    (s : String) (bs : List Block)
    → read_blocks (content_blocks (plain s) ++ bs) "" [] ≡ read_blocks bs s []
unfolding content_blocks read_blocks
read_blocks-content_blocks s bs =
    either_branch (λ l. read_blocks (l ++ bs) "" [] ≡ read_blocks bs s []) (s == "")
      (λ empty. rw (sym ((string_eq.same_key_iff s "").0 empty)))
      (λ given. rw (given, read_blocks) (rw nil-append))

-- The text and the calls of an answer are read back from its blocks.
pub read_blocks-message :
    (r : ℕ → ℕ → String) (s : String) (tcs : List OaiToolCall)
    → All IsPlain tcs
    → read_blocks (padded (content_blocks (plain s) ++ call_blocks r 1 tcs)) "" [] ≡ (s, tcs)
read_blocks-message r s tcs h =
    read_blocks-padded (content_blocks (plain s) ++ call_blocks r 1 tcs)
    ∙ read_blocks-content_blocks s (call_blocks r 1 tcs)
    ∙ read_blocks-call_blocks r 1 tcs s [] h

-- A stop reason is one of three.
stop_of-cases :
    (P : String → Type 0)
    → P "end_turn"
    → P "max_tokens"
    → P "tool_use"
    → (f : Option String) → P (stop_of f)
unfolding stop_from_finish
stop_of-cases P ended cut tool none = ended
stop_of-cases P ended cut tool (some f) =
    either_branch P (f == "length") (λ _. cut)
      (λ _. either_branch P (f == "tool_calls" || f == "function_call") (λ _. tool) (λ _. ended))

finish_of-stop_of : (f : Option String) → stop_from_finish (finish_of (stop_of f)) ≡ stop_of f
unfolding stop_from_finish finish_of
finish_of-stop_of = stop_of-cases (λ t. stop_from_finish (finish_of t) ≡ t) refl refl refl

first_non_empty-stop_of : (f : Option String) → first_non_empty (stop_of f) "end_turn" ≡ stop_of f
first_non_empty-stop_of = stop_of-cases (λ t. first_non_empty t "end_turn" ≡ t) refl refl refl

first_non_empty-first_non_empty :
    (v w x : String)
    → (v == "") ≡ false
    → first_non_empty (first_non_empty v w) x ≡ first_non_empty v w
first_non_empty-first_non_empty v w x h = rw h (rw h)

-- An answer that is passed on in OpenAI's form and translated by a second gateway: its text, its
-- calls, its model, its stop reason and its tokens are those of the first translation.
pub record SameAnswer (m n : MessageResponse) : Type 0 where
  pub content : m.content ≡ n.content
  pub model : m.model ≡ n.model
  pub stop_reason : m.stop_reason ≡ n.stop_reason
  pub input_tokens : m.input_tokens ≡ n.input_tokens
  pub output_tokens : m.output_tokens ≡ n.output_tokens

-- Where an answer of OpenAI's has a text, calls of tools that have identifiers and arguments, a
-- model and a usage, `to_openai` of its translation has the same text, calls, model and tokens; and
-- the translation of that, once decoded, is again the same message but for its identifier.
pub to_openai-translate_response :
    (r : ℕ → ℕ → String) (model s : String) (tcs : List OaiToolCall) (f : Option String)
    (u : OaiUsage) (requested again : String)
    → All IsPlain tcs
    → (model == "") ≡ false
    → let first = translate_response r (reply_of model s tcs f u) requested in
      ((to_openai first).content ≡ s)
      × ((to_openai first).tool_calls ≡ tcs)
      × ((to_openai first).model ≡ model)
      × ((to_openai first).prompt_tokens ≡ u.prompt_tokens)
      × ((to_openai first).completion_tokens ≡ u.completion_tokens)
      × SameAnswer (translate_response r (as_reply (to_openai first)) again) first
unfolding translate_response to_openai message_blocks
to_openai-translate_response r model s tcs f u requested again h named =
    let e = read_blocks-message r s tcs h in
    (
      ap (λ p. p.0) e,
      ap (λ p. p.1) e,
      rw named refl,
      refl,
      refl,
      record {
        content = ap (λ p. padded (content_blocks (plain p.0) ++ call_blocks r 1 p.1)) e;
        model = first_non_empty-first_non_empty model requested again named;
        stop_reason =
            ap (λ t. first_non_empty (stop_from_finish (finish_of t)) "end_turn")
              (first_non_empty-stop_of f)
            ∙ ap (λ t. first_non_empty t "end_turn") (finish_of-stop_of f);
        input_tokens = refl;
        output_tokens = refl;
      },
    )
