-- ===== src/Core/Synthetic/Retell.antt =====
-- internal/core/collect.go, `WriteSyntheticStream`: a client that puts the deltas together has the
-- message again.
use Prim.Native.String.{◌++◌ as str_append}
use text.Mathlib.TextLemmas.{nil-append}
use text.Mathlib.TextEquality.{eq_iff}
use mathlib.Core.List.{append_assoc}
use claude_code_gateway.Prelude.{
  ℕ, ◌+◌, ◌≡◌, refl, ap, ◌∙◌, String, List, [], ◌∷◌, ◌++◌, map, arith, if◌then◌else◌,
  either_branches, Bool-cases, inl, inr, ◌==◌, string_eq,
}
use claude_code_gateway.Prelude.Int.{ℤ}
use claude_code_gateway.Core.Stream.{
  Event, message_start, text_start, tool_start, text_delta, json_delta, block_stop, message_delta,
  message_stop,
}
use claude_code_gateway.Core.Collect.{Block, MessageResponse}
use claude_code_gateway.Core.Synthetic.{told_input, block_events, content_events, synthetic_stream}

abbrev text_of : String → Block
text_of s = record { kind = "text"; text = s; id = ""; name = ""; input = "" }

abbrev tool_of : String → String → String → Block
tool_of id name input = record { kind = "tool_use"; text = ""; id = id; name = name; input = input }

-- A client that keeps the block which is open.
unfoldable pub retell : Block → List Event → List Block
retell b [] = []
retell b (message_start id model i ∷ es) = retell b es
retell b (text_start i ∷ es) = retell (text_of "") es
retell b (tool_start i id name ∷ es) = retell (tool_of id name "") es
retell b (text_delta i s ∷ es) = retell (record b { text = str_append b.text s }) es
retell b (json_delta i s ∷ es) = retell (record b { input = str_append b.input s }) es
retell b (block_stop i ∷ es) = b ∷ retell b es
retell b (message_delta r o i ∷ es) = retell b es
retell b (message_stop ∷ es) = retell b es

-- What is left of a block: a tool's call, with an empty object where it has no input, or the text.
abbrev pub told : Block → Block
told b =
    if b.kind == "tool_use"
    then tool_of b.id b.name (if b.input == "" then "{}" else b.input)
    else text_of b.text

retell-text :
    (i : ℕ) (x : String) (c : Block) (es : List Event)
    → retell c
        ((text_start i ∷ (if x == "" then [] else text_delta i x ∷ []) ++ block_stop i ∷ []) ++ es)
      ≡ text_of x ∷ retell (text_of x) es
unfolding retell
retell-text i x c es = elim (Bool-cases (x == "")) [
  | inl none' ↦ ground (arith, eq_iff x "", none')
  | inr other ↦ ground (arith, nil-append x, other)
]

retell-tool :
    (i : ℕ) (id name x : String) (c : Block) (es : List Event)
    → retell c ((tool_start i id name ∷ json_delta i x ∷ block_stop i ∷ []) ++ es)
      ≡ tool_of id name x ∷ retell (tool_of id name x) es
unfolding retell
retell-tool i id name x c es =
    ap (λ y. tool_of id name y ∷ retell (tool_of id name y) es) (nil-append x)

retell-block :
    (i : ℕ) (b c : Block) (es : List Event)
    → retell c (block_events i b ++ es) ≡ told b ∷ retell (told b) es
unfolding block_events
retell-block i b c es =
    either_branches (λ fs d. retell c (fs ++ es) ≡ d ∷ retell d es) (b.kind == "tool_use")
      (λ _. retell-tool i b.id b.name (told_input b.input) c es) (λ _. retell-text i b.text c es)

retell-content :
    (i : ℕ) (bs : List Block) (c : Block) (r : String) (o n : ℤ)
    → retell c (content_events i bs ++ message_delta r o n ∷ message_stop ∷ []) ≡ map told bs
unfolding content_events retell
retell-content i [] c r o n = refl
retell-content i (b ∷ bs) c r o n =
    ap (retell c) (append_assoc (block_events i b) (content_events (i + 1) bs) _)
    ∙ retell-block i b c (content_events (i + 1) bs ++ message_delta r o n ∷ message_stop ∷ [])
    ∙ ap (λ l. told b ∷ l) (retell-content (i + 1) bs (told b) r o n)

-- A client that puts the deltas of each block together, whatever it held before, has the blocks of the
-- message in their order: a tool's call with its identifier, name and input (an empty object where
-- there is none), and any other block as its text.
pub synthetic_stream-retell :
    (rand_hex : ℕ → ℕ → String) (mr : MessageResponse) (c : Block)
    → retell c (synthetic_stream rand_hex mr) ≡ map told mr.content
unfolding synthetic_stream retell
synthetic_stream-retell rand_hex mr c = retell-content 0 mr.content c _ _ _
