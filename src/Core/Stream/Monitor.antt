-- ===== src/Core/Stream/Monitor.antt =====
-- What a client of internal/core/stream.go relies on: the protocol of the events, as a state machine
-- that refuses an event which is out of place. It knows nothing of the translator.
use claude_code_gateway.Prelude.{
  ℕ, ◌+◌, ◌≡◌, Bool, true, false, not, ◌&&◌, List, [], ◌∷◌, ◌++◌, Option, none, some, nat_beq,
  if◌then◌else◌, arith, Option-cases, inl, inr,
}
use claude_code_gateway.Core.Stream.{
  Event, message_start, text_start, tool_start, text_delta, json_delta, block_stop, message_delta,
  message_stop,
}

-- A block that has not been started, or has been stopped, is `shut`.
pub data Kind : Type 0 where
  shut : Kind
  text : Kind
  tool_use : Kind

abbrev pub is_shut : Kind → Bool
is_shut shut = true
is_shut text = false
is_shut tool_use = false

abbrev pub is_text : Kind → Bool
is_text shut = false
is_text text = true
is_text tool_use = false

abbrev pub is_tool_use : Kind → Bool
is_tool_use shut = false
is_tool_use text = false
is_tool_use tool_use = true

pub record Heard : Type 0 where
  pub begun : Bool
  pub ended : Bool
  pub next : ℕ
  pub kind : ℕ → Kind

abbrev pub silence : Heard
silence = record { begun = false; ended = false; next = 0; kind = λ _. shut }

abbrev pub set_kind : ℕ → Kind → (ℕ → Kind) → ℕ → Kind
set_kind i k f j = if nat_beq i j then k else f j

abbrev pub allow : Bool → Heard → Option Heard
allow true s = some s
allow false s = none

abbrev pub begin_block : ℕ → Kind → Heard → Option Heard
begin_block i k s =
    allow (nat_beq i s.next) (record s { next = s.next + 1; kind = set_kind i k s.kind })

-- A message starts once, and ends once; blocks are numbered one after the other; a delta goes to an
-- open block of its kind; only an open block is stopped.
unfoldable pub hear : Event → Heard → Option Heard
hear (message_start id model in') s = allow (not s.begun) (record s { begun = true })
hear (text_start i) s = if s.begun && not s.ended then begin_block i text s else none
hear (tool_start i id name) s = if s.begun && not s.ended then begin_block i tool_use s else none
hear (text_delta i x) s = allow (s.begun && not s.ended && is_text (s.kind i)) s
hear (json_delta i x) s = allow (s.begun && not s.ended && is_tool_use (s.kind i)) s
hear (block_stop i) s =
    allow (s.begun && not s.ended && not (is_shut (s.kind i)))
      (record s { kind = set_kind i shut s.kind })
hear (message_delta r out in') s = allow (s.begun && not s.ended) s
hear message_stop s = allow (s.begun && not s.ended) (record s { ended = true })

unfoldable pub hear_all : List Event → Heard → Option Heard
hear_all [] s = some s
hear_all (e ∷ es) s = elim (hear e s) [ none ↦ none | some s' ↦ hear_all es s' ]

pub hear_all-snoc :
    (es : List Event) (e : Event) (s s' : Heard)
    → hear_all es s ≡ some s'
    → hear_all (es ++ e ∷ []) s ≡ hear e s'
unfolding hear_all
hear_all-snoc [] e s s' h = elim (Option-cases (hear e s)) [
  | inl out ↦ ground (arith, out)
  | inr (s'', on) ↦ ground (arith, on)
]
hear_all-snoc (x ∷ es) e s s' h = elim (Option-cases (hear x s)) [
  | inl out ↦ absurd (ground (arith, out))
  | inr (s'', on) ↦ rw (on, hear_all) (hear_all-snoc es e s'' s' (rw (on, hear_all) at h))
]
