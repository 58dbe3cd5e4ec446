-- ===== src/Core/Stream/Tools.antt =====
-- internal/core/stream.go: the tools of a chunk, and the whole of a chunk.
use claude_code_gateway.Prelude.{
  ℕ, ◌≡◌, refl, ◌∙◌, String, true, false, ◌||◌, List, [], ◌∷◌, Option, none, some, arith,
  Bool-cases, either_branch, Option-cases, inl, inr, ◌==◌, string_eq,
}
use claude_code_gateway.Prelude.GoMap.{put-Distinct, get, put, get-put}
use claude_code_gateway.Prelude.Int.{ℤ, int_eq, int_beq_iff}
use claude_code_gateway.Prelude.Text.{trim_space}
use claude_code_gateway.Core.Stream.{
  Translator, StreamTool, ToolCall, ChatDelta, Choice, OaiChunk, OaiUsage, tool_start, close_text,
  named, add_arguments, begun_tool, begin_tool, tool, add_call, add_calls, add_delta, add_choice,
  note_usage, note_finish, chunk,
}
use claude_code_gateway.Core.Stream.Monitor.{tool_use, Heard, hear}
use claude_code_gateway.Core.Stream.Blocks.{
  Follows, Good, emit-Hears, begin_tool-heard, begin_tool-Follows, close_text-Good, add_text-Good,
  add_arguments-Good,
}

close_text-tools : (t : Translator) → (close_text t).tools ≡ t.tools
unfolding close_text
close_text-tools t = ground arith

-- A tool that is known may get a name, and keeps its index.
named-same :
    (tc : ToolCall) (st : StreamTool)
    → ((named tc st).a_idx ≡ st.a_idx) × ((named tc st).started ≡ st.started)
unfolding named
named-same tc st = ground arith

put_tool-Follows :
    (t : Translator) (s : Heard) (i : ℤ) (st st' : StreamTool)
    → get t.tools i ≡ some st
    → st'.a_idx ≡ st.a_idx
    → st'.started ≡ true
    → Follows t s
    → Follows (record t { tools = put t.tools i st' }) s
put_tool-Follows t s i st st' known same_idx on h =
    let read = λ (k : ℤ). get-put t.tools i k st' in
    record {
      begun = h.begun;
      ended = h.ended;
      next = h.next;
      below = h.below;
      text_open = h.text_open;
      text_only = h.text_only;
      tools = λ k st₁ e. ground (arith, read k, h.tools k st₁, h.tools i st known, int_beq_iff i k);
      tool_only = λ a k.
          let (j, st₁, e, at) = h.tool_only a k in
          elim (Bool-cases (i == j)) [
            | inl same ↦
                (i, st', ground (arith, read i, int_beq_iff i i), ground (arith, int_beq_iff i j))
            | inr other ↦ (j, st₁, ground (arith, read j), at)
          ];
      apart = λ k j st₁ st₂ e e₁ same. ground (
        arith,
        read k,
        read j,
        int_beq_iff i k,
        int_beq_iff i j,
        h.apart k j st₁ st₂,
        h.apart i j st st₂ known,
        h.apart k i st₁ st,
      );
      distinct = put-Distinct t.tools i st' h.distinct;
    }

known_tool : (i : ℤ) (t : Translator) → (tool i t).started ≡ true → get t.tools i ≡ some (tool i t)
known_tool i t on = ground (arith, on)

module _ (rand_hex : ℕ → ℕ → String) where
  begin_tool-Good :
      (tc : ToolCall) (t : Translator)
      → get t.tools tc.index ≡ none
      → Good t
      → (g' : Good (begin_tool rand_hex tc t)) × (g'.heard.kind t.next_idx ≡ tool_use)
  unfolding begin_tool hear
  begin_tool-Good tc t unknown g =
      let h = g.tracks in
      let st = begun_tool rand_hex tc t in
      (
        record {
          heard = begin_tool-heard rand_hex t g.heard;
          hears =
              emit-Hears (tool_start st.a_idx st.id st.name) t (begin_tool rand_hex tc t)
                (begin_tool-heard rand_hex t g.heard) g refl
                (ground (arith, h.begun, h.ended, h.next));
          tracks = begin_tool-Follows rand_hex tc t g.heard unknown h;
        },
        ground arith,
      )

  known_call-Good :
      (tc : ToolCall) (t : Translator)
      → (tool tc.index t).started ≡ true
      → Good t
      → Good (
          add_arguments tc.arguments
            (tool tc.index t).a_idx
            (record t { tools = put t.tools tc.index (named tc (tool tc.index t)) }))
  known_call-Good tc t on g =
      let st = tool tc.index t in
      let known = known_tool tc.index t on in
      let same = named-same tc st in
      add_arguments-Good tc.arguments st.a_idx _
        (record {
          heard = g.heard;
          hears = g.hears;
          tracks =
              put_tool-Follows t g.heard tc.index st (named tc st) known same.0 (same.1 ∙ on)
                g.tracks;
        })
        (g.tracks.tools tc.index st known).1

  new_call-Good :
      (tc : ToolCall) (t : Translator)
      → (tool tc.index t).started ≡ false
      → Good t
      → Good (
          add_arguments tc.arguments
            (close_text t).next_idx
            (begin_tool rand_hex tc (close_text t)))
  new_call-Good tc t off g =
      let unknown : get (close_text t).tools tc.index ≡ none =
        rw (close_text-tools t) (elim (Option-cases (get t.tools tc.index)) [
          | inl none' ↦ none'
          | inr (st, e) ↦ absurd (ground (arith, e, g.tracks.tools tc.index st e))
        ]) in
      let (g', k) = begin_tool-Good tc (close_text t) unknown (close_text-Good t g) in
      add_arguments-Good tc.arguments (close_text t).next_idx _ g' k

  add_call-Good : (tc : ToolCall) (t : Translator) → Good t → Good (add_call rand_hex tc t)
  unfolding add_call
  add_call-Good tc t g =
      either_branch Good (tool tc.index t).started (λ on. known_call-Good tc t on g)
        (λ off. new_call-Good tc t off g)

  add_calls-Good : (tcs : List ToolCall) (t : Translator) → Good t → Good (add_calls rand_hex tcs t)
  unfolding add_calls
  add_calls-Good [] t g = g
  add_calls-Good (tc ∷ tcs) t g = add_calls-Good tcs (add_call rand_hex tc t) (add_call-Good tc t g)

  note_usage-Good : (u : Option OaiUsage) (t : Translator) → Good t → Good (note_usage rand_hex u t)
  note_usage-Good none t g = g
  note_usage-Good (some u) t g = record { heard = g.heard; hears = g.hears; tracks = g.tracks }

  note_finish-Good : (f : Option String) (t : Translator) → Good t → Good (note_finish rand_hex f t)
  note_finish-Good none t g = g
  note_finish-Good (some f) t g =
      either_branch Good (f == "") (λ _. g)
        (λ _. record { heard = g.heard; hears = g.hears; tracks = g.tracks })

  add_delta-Good : (d : Option ChatDelta) (t : Translator) → Good t → Good (add_delta rand_hex d t)
  unfolding add_delta
  add_delta-Good none t g = g
  add_delta-Good (some d) t g = add_calls-Good d.tool_calls _ (add_text-Good d.content t g)

  add_choice-Good : (cs : List Choice) (t : Translator) → Good t → Good (add_choice rand_hex cs t)
  unfolding add_choice
  add_choice-Good [] t g = g
  add_choice-Good (c ∷ cs) t g = note_finish-Good c.finish_reason _ (add_delta-Good c.delta t g)

  pub chunk-Good :
      (decode : String → Option OaiChunk) (line : String) (t : Translator)
      → Good t
      → Good (chunk rand_hex decode line t)
  unfolding chunk
  chunk-Good decode line t g =
      either_branch Good (trim_space line == "" || trim_space line == "[DONE]") (λ _. g)
        (λ _. decoded (decode (trim_space line)))
    where
      decoded :
          (o : Option OaiChunk)
          → Good (elim o [
            | none ↦ t
            | some ch ↦ add_choice rand_hex ch.choices (note_usage rand_hex ch.usage t)
          ])
      decoded none = g
      decoded (some ch) = add_choice-Good ch.choices _ (note_usage-Good ch.usage t g)
