-- ===== src/Provider/Breaker/Load.antt =====
-- internal/provider/provider.go: what each operation does to the number of calls in flight and to the
-- breaker.
use claude_code_gateway.Prelude.{ℕ, Bool, true, false, ◌≡◌, refl}
use claude_code_gateway.Prelude.Int.{ℤ, pos, negsuc, ◌+ℤ◌, int_laws}
use claude_code_gateway.Provider.Breaker.{Health, note_upstream, begin_request, end_request}

pub inflight-note_upstream :
    (ok : Bool) (now : ℕ) (h : Health) → (note_upstream ok now h).inflight ≡ h.inflight
unfolding note_upstream
inflight-note_upstream true now h = refl
inflight-note_upstream false now h = refl

pub inflight-begin_request : (h : Health) → (begin_request h).inflight ≡ h.inflight +ℤ pos 1
unfolding begin_request
inflight-begin_request h = refl

pub inflight-end_request :
    (smooth : ℕ → ℤ → ℕ) (ms : ℤ) (h : Health)
    → (end_request smooth ms h).inflight ≡ h.inflight +ℤ negsuc 0
unfolding end_request
inflight-end_request smooth ms h = refl

-- A call that began and ended counts for nothing.
pub add_sub_one : (n : ℤ) → (n +ℤ pos 1) +ℤ negsuc 0 ≡ n
add_sub_one n = omega int_laws
