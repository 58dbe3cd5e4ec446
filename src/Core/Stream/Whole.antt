-- ===== src/Core/Stream/Whole.antt =====
-- internal/core/stream.go, `TranslateOpenAIStream`: what a client hears from the start to the end.
use claude_code_gateway.Prelude.{
  ℕ, ◌≡◌, refl, String, Bool, true, false, not, ◌&&◌, List, [], ◌∷◌, Option, none, arith, inl, inr,
  ◌⊎◌, if◌then◌else◌, string_eq,
}
use claude_code_gateway.Prelude.Int.{pos, int_eq}
use claude_code_gateway.Prelude.GoMap.{get}
use claude_code_gateway.Core.Stream.{
  Translator, OaiChunk, message_delta, message_stop, Line, skipped, done, payload, read_line, start,
  new_translator, scan_lines, translate_stream, finalize, close_text, close_tools, sort_ints,
  sort_onto, turn_onto, final_usage, estimate_tokens,
}
use claude_code_gateway.Core.Stream.Monitor.{silence, hear, hear_all}
use claude_code_gateway.Core.Stream.Blocks.{Good}
use claude_code_gateway.Core.Stream.Tools.{chunk-Good}
use claude_code_gateway.Core.Stream.Closing.{IsWhole, finalize-IsWhole}

-- A line with a payload comes before the end of the stream.
abbrev pub carries : List String → Bool
carries [] = false
carries (l ∷ ls) = elim (read_line l) [ skipped ↦ carries ls | done ↦ false | payload p ↦ true ]

pub Line-cases : (x : Line) → (x ≡ skipped) ⊎ (x ≡ done) ⊎ ((p : String) × (x ≡ payload p))
Line-cases skipped = inl refl
Line-cases done = inr (inl refl)
Line-cases (payload p) = inr (inr (p, refl))

module _ (rand_hex : ℕ → ℕ → String) (decode : String → Option OaiChunk) where
  start-Good : (model : String) → Good (start (new_translator rand_hex model))
  unfolding start new_translator hear hear_all get
  start-Good model = record {
    heard = record silence { begun = true };
    hears = refl;
    tracks = record {
      begun = refl;
      ended = refl;
      next = refl;
      below = λ i o. absurd (o refl);
      text_open = λ e. ground arith;
      text_only = λ i e. absurd (ground arith);
      tools = λ k st e. absurd (ground arith);
      tool_only = λ i e. absurd (ground arith);
      apart = λ k j st st' e e' same. absurd (ground arith);
      distinct = tt;
    };
  }

  scan_lines-Good :
      (lines : List String) (t : Translator)
      → Good t
      → ((scan_lines rand_hex decode lines false t).0 ≡ false)
        × Good (scan_lines rand_hex decode lines false t).1
  unfolding scan_lines
  scan_lines-Good [] t g = (refl, g)
  scan_lines-Good (l ∷ lines) t g = elim (Line-cases (read_line l)) [
    | inl none' ↦ rw (none', scan_lines) (scan_lines-Good lines t g)
    | inr (inl end') ↦ rw (end', scan_lines) (refl, g)
    | inr (inr (p, e)) ↦
        rw (e, scan_lines) (scan_lines-Good lines _ (chunk-Good rand_hex decode p t g))
  ]

  -- The loop either meets a payload, or leaves the translator as it was.
  Outcome : Translator → List String → Type 0
  Outcome t lines =
      ((carries lines ≡ true)
        × ((scan_lines rand_hex decode lines true t).0 ≡ false)
        × Good (scan_lines rand_hex decode lines true t).1)
      ⊎ ((carries lines ≡ false) × (scan_lines rand_hex decode lines true t ≡ (true, t)))

  scan_lines-Outcome :
      (model : String) (lines : List String) → Outcome (new_translator rand_hex model) lines
  unfolding scan_lines Outcome
  scan_lines-Outcome model [] = inr (refl, refl)
  scan_lines-Outcome model (l ∷ lines) = elim (Line-cases (read_line l)) [
    | inl none' ↦ rw (none', scan_lines, carries) (scan_lines-Outcome model lines)
    | inr (inl end') ↦ rw (end', scan_lines, carries) (inr (refl, refl))
    | inr (inr (p, e)) ↦
        let (later, g) =
          scan_lines-Good lines _ (chunk-Good rand_hex decode p _ (start-Good model)) in
        rw (e, scan_lines, carries) (inl (refl, later, g))
  ]

  -- Unless the scanner fails before the first chunk, a client hears a whole message: it starts once
  -- and ends once, its blocks are numbered one after the other, each delta goes to an open block of
  -- its kind, and each block is stopped exactly once; whatever the chunks hold, in whatever order.
  pub translate_stream-IsWhole :
      (lines : List String) (failed : Bool) (model : String)
      → (failed ≡ false) ⊎ (carries lines ≡ true)
      → IsWhole (translate_stream rand_hex decode lines failed model).out
  unfolding translate_stream Outcome
  translate_stream-IsWhole lines failed model fine =
      let (first, t) = scan_lines rand_hex decode lines true (new_translator rand_hex model) in
      finalize-IsWhole (if first && not failed then start t else t)
        (elim (scan_lines-Outcome model lines) [
          | inl (c, later, g) ↦ rw later g
          | inr (c, e) ↦ elim fine [
            | inl quiet ↦ rw (e, quiet) (start-Good model)
            | inr c' ↦ absurd (ground (arith, c, c'))
          ]
        ])

  -- If the scanner fails before the first chunk, the client is sent the end of a message that was never
  -- started, and refuses it.
  pub translate_stream_headless :
      (lines : List String) (model : String)
      → carries lines ≡ false
      → ((translate_stream rand_hex decode lines true model).out
          ≡ message_delta "end_turn" (pos 0) (pos 0) ∷ message_stop ∷ [])
        × (hear_all (translate_stream rand_hex decode lines true model).out silence ≡ none)
  unfolding Outcome translate_stream new_translator finalize close_text sort_ints sort_onto
      turn_onto close_tools final_usage estimate_tokens hear hear_all
  translate_stream_headless lines model c = elim (scan_lines-Outcome model lines) [
    | inl (c', later, g) ↦ absurd (ground (arith, c, c'))
    | inr (c', e) ↦ rw e (refl, refl)
  ]
