-- ===== src/Core/Synthetic/Whole.antt =====
-- internal/core/collect.go, `WriteSyntheticStream`: the stream is whole, and tells the message.
use claude_code_gateway.Prelude.{
  ℕ, ◌+◌, ◌≡◌, refl, ◌∙◌, String, true, false, List, [], ◌∷◌, ◌++◌, some, arith, if◌then◌else◌,
  either_branch, Option-cases, inl, inr, ◌==◌, string_eq,
}
use claude_code_gateway.Prelude.Int.{ℤ}
use claude_code_gateway.Core.Stream.{
  Event, text_start, tool_start, text_delta, json_delta, block_stop, message_delta, message_stop,
  first_non_empty,
}
use claude_code_gateway.Core.Stream.Monitor.{
  Kind, shut, text, tool_use, Heard, silence, set_kind, hear, hear_all,
}
use claude_code_gateway.Core.Stream.Closing.{IsWhole}
use claude_code_gateway.Core.Collect.{Block, MessageResponse}
use claude_code_gateway.Core.Synthetic.{
  told_input, block_events, content_events, out_tokens, synthetic_stream,
}

-- Between two blocks: `i` blocks have been told, and none is open.
record Between (i : ℕ) (s : Heard) : Type 0 where
  begun : s.begun ≡ true
  ended : s.ended ≡ false
  next : s.next ≡ i
  closed : (j : ℕ) → s.kind j ≡ shut

hear_all-append :
    (es fs : List Event) (s s' : Heard)
    → hear_all es s ≡ some s'
    → hear_all (es ++ fs) s ≡ hear_all fs s'
unfolding hear_all
hear_all-append [] fs s s' h = ground (arith, h)
hear_all-append (e ∷ es) fs s s' h = elim (Option-cases (hear e s)) [
  | inl out ↦ absurd (ground (arith, out))
  | inr (s'', on) ↦ rw (on, hear_all) (hear_all-append es fs s'' s' (rw (on, hear_all) at h))
]

abbrev told_block : ℕ → Kind → Heard → Heard
told_block i k s = record s { next = s.next + 1; kind = set_kind i shut (set_kind i k s.kind) }

told_block-Between :
    (i : ℕ) (k : Kind) (s : Heard) → Between i s → Between (i + 1) (told_block i k s)
told_block-Between i k s b = record {
  begun = b.begun;
  ended = b.ended;
  next = ground (arith, b.next);
  closed = λ j. ground (arith, b.closed j);
}

-- One block is told from its start to its stop.
text_block-told :
    (i : ℕ) (s : Heard) (x : String)
    → Between i s
    → hear_all (text_start i ∷ (if x == "" then [] else text_delta i x ∷ []) ++ block_stop i ∷ []) s
      ≡ some (told_block i text s)
unfolding hear_all hear
text_block-told i s x b = ground (arith, b.begun, b.ended, b.next)

tool_block-told :
    (i : ℕ) (s : Heard) (id name x : String)
    → Between i s
    → hear_all (tool_start i id name ∷ json_delta i x ∷ block_stop i ∷ []) s
      ≡ some (told_block i tool_use s)
unfolding hear_all hear
tool_block-told i s id name x b = ground (arith, b.begun, b.ended, b.next)

block_events-told :
    (i : ℕ) (b : Block) (s : Heard)
    → Between i s
    → (s' : Heard) × (hear_all (block_events i b) s ≡ some s') × Between (i + 1) s'
unfolding block_events
block_events-told i b s t =
    either_branch (λ es. (s' : Heard) × (hear_all es s ≡ some s') × Between (i + 1) s')
      (b.kind == "tool_use")
      (λ _. (
        told_block i tool_use s,
        tool_block-told i s b.id b.name (told_input b.input) t,
        told_block-Between i tool_use s t,
      ))
      (λ _. (told_block i text s, text_block-told i s b.text t, told_block-Between i text s t))

content_events-told :
    (i : ℕ) (bs : List Block) (s : Heard)
    → Between i s
    → (n : ℕ) × (s' : Heard) × (hear_all (content_events i bs) s ≡ some s') × Between n s'
unfolding content_events hear_all
content_events-told i [] s t = (i, s, refl, t)
content_events-told i (b ∷ bs) s t =
    let (s', h, t') = block_events-told i b s t in
    let (n, s'', h', t'') = content_events-told (i + 1) bs s' t' in
    (n, s'', hear_all-append (block_events i b) (content_events (i + 1) bs) s s' h ∙ h', t'')

start-Between : Between 0 (record silence { begun = true })
start-Between = record { begun = refl; ended = refl; next = refl; closed = λ j. refl }

ending-told :
    (n : ℕ) (s : Heard) (r : String) (o i : ℤ)
    → Between n s
    → hear_all (message_delta r o i ∷ message_stop ∷ []) s ≡ some (record s { ended = true })
unfolding hear_all hear
ending-told n s r o i t = ground (arith, t.begun, t.ended)

-- A message of any content, told as a stream, is whole: it starts and ends once, its blocks are numbered
-- one after the other, and each is stopped.
pub synthetic_stream-IsWhole :
    (rand_hex : ℕ → ℕ → String) (mr : MessageResponse) → IsWhole (synthetic_stream rand_hex mr)
unfolding synthetic_stream hear_all hear
synthetic_stream-IsWhole rand_hex mr =
    let (n, s, h, t) =
      content_events-told 0 mr.content (record silence { begun = true }) start-Between in
    record {
      heard = record s { ended = true };
      hears =
          hear_all-append (content_events 0 mr.content) _ (record silence { begun = true }) s h
          ∙ ending-told n s (first_non_empty mr.stop_reason "end_turn") (out_tokens mr)
              mr.input_tokens t;
      begun = t.begun;
      ended = refl;
      stopped = t.closed;
    }
