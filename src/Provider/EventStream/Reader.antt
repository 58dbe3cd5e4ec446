-- ===== src/Provider/EventStream/Reader.antt =====
-- internal/provider/eventstream.go: `Read`, which gives the body in pieces.
use claude_code_gateway.Prelude.{
  ℕ, zero, suc, ◌+◌, String, Bool, true, false, Option, none, some, List, [], ◌∷◌, length, take,
  drop, if◌then◌else◌,
}
use claude_code_gateway.Provider.EventStream.{Fault, Framed, frame, stop, told, next_frame}
pub mod Pieces

-- `eventStreamReader`, with what is left to read of the upstream.
pub record Reader : Type 0 where
  pub src : List ℕ
  pub buf : List ℕ
  pub eof : Bool

-- What a call gives: bytes, or the end of the body with its error.
pub data Outcome : Type 0 where
  gave : List ℕ → Outcome
  ended : Option Fault → Outcome

-- A call for at most `n` bytes where some are in the buffer; otherwise what is done is `more`.
abbrev pub buffered : ℕ → Reader → List ℕ → Reader × Outcome → Reader × Outcome
buffered n r [] more = if r.eof then (r, ended none) else more
buffered n r (b ∷ bs) more = (record r { buf = drop n (b ∷ bs) }, gave (take n (b ∷ bs)))

abbrev pub refilled : Reader → Framed → (Reader → Reader × Outcome) → Reader × Outcome
refilled r (stop e) rest = (record r { eof = true }, ended (told e))
refilled r (frame out src) rest = rest (record r { src = src; buf = out })

module _ (decode : List ℕ → Option String) (base64 : String → Option (List ℕ))
    (fault : Option String) where
  -- The loop of `Read`; every frame takes bytes.
  unfoldable pub read_from : ℕ → ℕ → Reader → Reader × Outcome
  unfolding next_frame
  read_from zero n r = (r, ended none)
  read_from (suc fuel) n r =
      buffered n r r.buf (refilled r (next_frame decode base64 fault r.src) (read_from fuel n))

  unfoldable pub read_body : ℕ → Reader → Reader × Outcome
  unfolding read_from
  read_body n r = read_from (length r.src + 1) n r
