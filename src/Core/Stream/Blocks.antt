-- ===== src/Core/Stream/Blocks.antt =====
-- internal/core/stream.go: the translator keeps to the protocol of the events, chunk by chunk.
use claude_code_gateway.Prelude.{
  ℕ, ◌+◌, ◌<◌, ◌≡◌, ◌≢◌, refl, sym, ◌∙◌, subst, String, Bool, true, false, [], ◌∷◌, ◌++◌, none,
  some, nat_beq, arith, Bool-cases, either_branch, inl, inr, Distinct, ◌==◌, string_eq,
}
use claude_code_gateway.Prelude.GoMap.{GoMap, keys, put-Distinct, get, get-put}
use claude_code_gateway.Prelude.Int.{ℤ, int_eq, int_beq_iff}
use claude_code_gateway.Core.Stream.{
  Translator, StreamTool, ToolCall, Event, text_start, text_delta, json_delta, block_stop, emit,
  ensure_text, close_text, add_text, add_arguments, begun_tool, begin_tool,
}
use claude_code_gateway.Core.Stream.Monitor.{
  shut, text, tool_use, Heard, silence, set_kind, hear, hear_all, hear_all-snoc,
}

-- What the client has heard agrees with what the translator knows.
pub record Tracks (next_idx : ℕ) (open_text : Bool) (text_idx : ℕ) (known : GoMap ℤ StreamTool)
    (s : Heard) : Type 0 where
  pub begun : s.begun ≡ true
  pub ended : s.ended ≡ false
  pub next : s.next ≡ next_idx
  pub below : (i : ℕ) → s.kind i ≢ shut → i < s.next
  pub text_open : open_text ≡ true → s.kind text_idx ≡ text
  pub text_only : (i : ℕ) → s.kind i ≡ text → (open_text ≡ true) × (i ≡ text_idx)
  pub tools :
      (k : ℤ) (st : StreamTool)
      → get known k ≡ some st
      → (st.started ≡ true) × (s.kind st.a_idx ≡ tool_use)
  pub tool_only :
      (i : ℕ)
      → s.kind i ≡ tool_use
      → (k : ℤ) × (st : StreamTool) × (get known k ≡ some st) × (st.a_idx ≡ i)
  pub apart :
      (k j : ℤ) (st st' : StreamTool)
      → get known k ≡ some st
      → get known j ≡ some st'
      → st.a_idx ≡ st'.a_idx
      → k ≡ j
  pub distinct : Distinct (keys known)

abbrev pub Follows : Translator → Heard → Type 0
Follows t s = Tracks t.next_idx t.open_text t.text_idx t.tools s

pub record Good (t : Translator) : Type 0 where
  pub heard : Heard
  pub hears : hear_all t.out silence ≡ some heard
  pub tracks : Follows t heard

pub emit-Hears :
    (e : Event) (t t' : Translator) (s' : Heard) (g : Good t)
    → t'.out ≡ t.out ++ e ∷ []
    → hear e g.heard ≡ some s'
    → hear_all t'.out silence ≡ some s'
emit-Hears e t t' s' g written on =
    subst (λ es. hear_all es silence ≡ some s') (sym written)
      (hear_all-snoc t.out e silence g.heard g.hears ∙ on)

pub emit-Good :
    (e : Event) (t t' : Translator) (s' : Heard) (g : Good t)
    → t'.out ≡ t.out ++ e ∷ []
    → hear e g.heard ≡ some s'
    → Follows t' s'
    → Good t'
emit-Good e t t' s' g written on tr = record {
  heard = s';
  hears = emit-Hears e t t' s' g written on;
  tracks = tr;
}

open_text-Good :
    (t : Translator)
    → t.open_text ≡ false
    → Good t
    → Good (
        emit
          (text_start t.next_idx)
          (record t { open_text = true; text_idx = t.next_idx; next_idx = t.next_idx + 1 }))
unfolding hear
open_text-Good t closed g =
    let s = g.heard in
    let h = g.tracks in
    emit-Good (text_start t.next_idx) t _
      (record s { next = s.next + 1; kind = set_kind t.next_idx text s.kind }) g refl
      (ground (arith, h.begun, h.ended, h.next))
      (record {
        begun = h.begun;
        ended = h.ended;
        next = ground (arith, h.next);
        below = λ i k. ground (arith, h.below i, h.next);
        text_open = λ _. ground arith;
        text_only = λ i k. ground (arith, h.text_only i);
        tools = λ k st e. ground (arith, h.tools k st e, h.below st.a_idx, h.next);
        tool_only = λ i k. h.tool_only i (ground arith);
        apart = h.apart;
        distinct = h.distinct;
      })

pub ensure_text-Good : (t : Translator) → Good t → Good (ensure_text t)
unfolding ensure_text
ensure_text-Good t g = either_branch Good t.open_text (λ _. g) (λ closed. open_text-Good t closed g)

stop_text-Good :
    (t : Translator)
    → t.open_text ≡ true
    → Good t
    → Good (emit (block_stop t.text_idx) (record t { open_text = false }))
unfolding hear
stop_text-Good t open' g =
    let s = g.heard in
    let h = g.tracks in
    emit-Good (block_stop t.text_idx) t _ (record s { kind = set_kind t.text_idx shut s.kind }) g
      refl (ground (arith, h.begun, h.ended, h.text_open open'))
      (record {
        begun = h.begun;
        ended = h.ended;
        next = h.next;
        below = λ i k. ground (arith, h.below i);
        text_open = λ e. ground arith;
        text_only = λ i k. ground (arith, h.text_only i);
        tools = λ k st e. ground (arith, h.tools k st e, h.text_open open');
        tool_only = λ i k. h.tool_only i (ground arith);
        apart = h.apart;
        distinct = h.distinct;
      })

pub close_text-Good : (t : Translator) → Good t → Good (close_text t)
unfolding close_text
close_text-Good t g = either_branch Good t.open_text (λ open'. stop_text-Good t open' g) (λ _. g)

ensure_text-open_text : (t : Translator) → (ensure_text t).open_text ≡ true
unfolding ensure_text
ensure_text-open_text t = ground arith

-- A delta changes nothing that the client keeps.
text_delta-Good :
    (x : String) (n : ℕ) (t : Translator)
    → t.open_text ≡ true
    → Good t
    → Good (emit (text_delta t.text_idx x) (record t { text_chars = n }))
unfolding hear
text_delta-Good x n t open' g =
    let h = g.tracks in
    emit-Good (text_delta t.text_idx x) t _ g.heard g refl
      (ground (arith, h.begun, h.ended, h.text_open open')) h

pub add_text-Good : (x : String) (t : Translator) → Good t → Good (add_text x t)
unfolding add_text
add_text-Good x t g =
    either_branch Good (x == "") (λ _. g)
      (λ _. text_delta-Good x _ (ensure_text t) (ensure_text-open_text t) (ensure_text-Good t g))

pub add_arguments-Good :
    (x : String) (i : ℕ) (t : Translator) (g : Good t)
    → g.heard.kind i ≡ tool_use
    → Good (add_arguments x i t)
unfolding add_arguments hear
add_arguments-Good x i t g is_tool =
    let h = g.tracks in
    either_branch Good (x == "") (λ _. g)
      (λ _.
        emit-Good (json_delta i x) t _ g.heard g refl (ground (arith, h.begun, h.ended, is_tool)) h)

-- A tool that is not known yet gets the next index.
module _ (rand_hex : ℕ → ℕ → String) where
  abbrev pub begin_tool-heard : Translator → Heard → Heard
  begin_tool-heard t s = record s { next = s.next + 1; kind = set_kind t.next_idx tool_use s.kind }

  pub begin_tool-Follows :
      (tc : ToolCall) (t : Translator) (s : Heard)
      → get t.tools tc.index ≡ none
      → Follows t s
      → Follows (begin_tool rand_hex tc t) (begin_tool-heard t s)
  unfolding begin_tool
  begin_tool-Follows tc t s unknown h =
      let st' = begun_tool rand_hex tc t in
      let read = λ (k : ℤ). get-put t.tools tc.index k st' in
      record {
        begun = h.begun;
        ended = h.ended;
        next = ground (arith, h.next);
        below = λ i k. ground (arith, h.below i, h.next);
        text_open = λ e. ground (arith, h.text_open e, h.below t.text_idx, h.next);
        text_only = λ i k. ground (arith, h.text_only i);
        tools = λ k st e. ground (arith, read k, h.tools k st, h.below st.a_idx, h.next);
        tool_only = λ i k. elim (Bool-cases (nat_beq t.next_idx i)) [
          | inl new ↦ (
            tc.index,
            st',
            ground (arith, read tc.index, int_beq_iff tc.index tc.index),
            ground arith,
          )
          | inr old ↦
              let (j, st, e, at) = h.tool_only i (rw old at k) in
              (j, st, ground (arith, read j, int_beq_iff tc.index j, unknown, e), at)
        ];
        apart = λ k j st st₁ e e₁ same. ground (
          arith,
          read k,
          read j,
          int_beq_iff tc.index k,
          int_beq_iff tc.index j,
          h.apart k j st st₁,
          h.tools k st,
          h.tools j st₁,
          h.below st.a_idx,
          h.below st₁.a_idx,
          h.next,
        );
        distinct = put-Distinct t.tools tc.index st' h.distinct;
      }
