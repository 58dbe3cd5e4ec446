-- ===== src/Provider/Breaker.antt =====
-- internal/provider/provider.go: the circuit breaker and the load figures of a provider. Each
-- counter is an atomic, so a method is one step.
pub mod Load
pub mod Opening
mod Examples
use claude_code_gateway.Prelude.{
  ℕ, ◌+◌, ◌-◌, ◌*◌, ◌/◌, ◌%◌, ◌^◌, String, Bool, true, false, ◌&&◌, List, [], ◌∷◌, ltb, leb,
  nat_beq, if◌then◌else◌,
}
use claude_code_gateway.Prelude.Int.{ℤ, pos, ◌+ℤ◌, negsuc}
use claude_code_gateway.Prelude.Time.{second, minute}

-- `t.Unix()`, for a moment after 1970.
abbrev pub unix : ℕ → ℕ
unix t = t / second - 62_135_596_800

-- `consecFails` is an int32, held as its bit pattern; `openUntilUnix` counts seconds. Latencies are
-- floats that are never negative, and are held as their bit patterns, which have the same order.
pub record Health : Type 0 where
  pub consec_fails : ℕ
  pub open_until : ℕ
  pub inflight : ℤ
  pub latency : ℕ

abbrev pub breaker_threshold : ℕ
breaker_threshold = 5

abbrev pub breaker_open_for : ℕ
breaker_open_for = 2 * minute

-- `n >= breakerThreshold` for the int32 with the bit pattern `n`
abbrev pub reaches : ℕ → Bool
reaches n = leb breaker_threshold n && ltb n (2 ^ 31)

unfoldable pub note_upstream : Bool → ℕ → Health → Health
note_upstream true now h = record h { consec_fails = 0 }
note_upstream false now h =
    let n = (h.consec_fails + 1) % 2 ^ 32 in
    record h {
      consec_fails = n;
      open_until = if reaches n then unix (now + breaker_open_for) else h.open_until;
    }

unfoldable pub is_open : ℕ → Health → Bool
is_open now h = ltb 0 h.open_until && ltb (unix now) h.open_until

pub open_for_seconds : ℕ → Health → ℕ
open_for_seconds now h = if nat_beq h.open_until 0 then 0 else h.open_until - unix now

unfoldable pub begin_request : Health → Health
begin_request h = record h { inflight = h.inflight +ℤ pos 1 }

-- `smooth` stands for the float `latEMA*0.7 + latencyMs*0.3`.
unfoldable pub end_request : (ℕ → ℤ → ℕ) → ℤ → Health → Health
end_request smooth latency_ms h = record h {
  inflight = h.inflight +ℤ negsuc 0;
  latency = smooth h.latency latency_ms;
}
