-- ===== src/Core/Respond/Calls.antt =====
-- What the loops over the blocks of an answer make of the calls of tools.
use Prim.Native.String.{String, ◌++◌ as str_append}
use claude_code_gateway.Prelude.{
  ℕ, ◌+◌, false, List, [], ◌∷◌, ◌++◌, ◌==◌, string_eq, All, arith, ◌≡◌, ◌∙◌, ap,
}
use mathlib.Core.List.{append_assoc, append-nil}
use claude_code_gateway.Core.Stream.{first_non_empty}
use claude_code_gateway.Core.Respond.{OaiToolCall, call_blocks, read_blocks, or_braces}

-- A call that says which it is and what its arguments are.
pub record IsPlain (tc : OaiToolCall) : Type 0 where
  pub named : (tc.id == "") ≡ false
  pub given : (tc.arguments == "") ≡ false
  pub object : (tc.arguments == "null") ≡ false

-- The call as the blocks hold it.
call_kept :
    (tc : OaiToolCall) (fresh : String)
    → IsPlain tc
    → record {
      id = first_non_empty tc.id fresh;
      name = tc.name;
      arguments = or_braces (or_braces tc.arguments);
    }
      ≡ tc
call_kept tc fresh h = ground (arith, h.named, h.given, h.object)

-- Calls that are written as blocks are read back as they were.
pub read_blocks-call_blocks :
    (rand_hex : ℕ → ℕ → String) (k : ℕ) (tcs : List OaiToolCall) (content : String)
    (calls : List OaiToolCall)
    → All IsPlain tcs
    → read_blocks (call_blocks rand_hex k tcs) content calls ≡ (content, calls ++ tcs)
unfolding read_blocks call_blocks
read_blocks-call_blocks r k [] content calls h = rw append-nil
read_blocks-call_blocks r k (tc ∷ tcs) content calls h =
    let ih = read_blocks-call_blocks r (k + 1) tcs content (calls ++ tc ∷ []) h.1 in
    ap (λ c. read_blocks (call_blocks r (k + 1) tcs) content (calls ++ c ∷ []))
      (call_kept tc (str_append "toolu_" (r 10 k)) h.0)
    ∙ ih
    ∙ ap (λ l. (content, l)) (append_assoc calls (tc ∷ []) tcs)
