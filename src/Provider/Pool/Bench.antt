-- ===== src/Provider/Pool/Bench.antt =====
-- internal/provider/pool.go over time: any sequence of picks and reports, under a clock that does
-- not run backwards.
use claude_code_gateway.Prelude.{
  ℕ, ◌+◌, ◌*◌, ◌≤◌, String, List, [], ◌∷◌, arith, inl, inr, Bool-cases, ◌==◌, string_eq, All,
}
use claude_code_gateway.Prelude.Time.{minute}
use claude_code_gateway.Provider.Pool.{
  KeyState, Pool, FailKind, success, soft_fail, hard_fail, penalise, report_keys, report_hint, pick,
}
use claude_code_gateway.Provider.Pool.Pick.{pick-views}
use claude_code_gateway.Provider.Pool.Report.{backoff_bounds}
use claude_code_gateway.Provider.Pool.Scan.{views}

pub data Call : Type 0 where
  picking : ℕ → Call
  reporting : ℕ → String → FailKind → ℕ → Call

abbrev pub step : Call → Pool → Pool
step (picking now) p = (pick now p).0
step (reporting now v kind wait) p = report_hint now v kind wait p

pub run : List Call → Pool → Pool
run [] p = p
run (c ∷ cs) p = run cs (step c p)

-- The clock does not go back, and no wait is longer than ten minutes (the cap of `parseRetryAfter`).
abbrev pub IsTimed : ℕ → List Call → Type 0
IsTimed t [] = Unit
IsTimed t (picking now ∷ cs) = (t ≤ now) × IsTimed now cs
IsTimed t (reporting now v kind wait ∷ cs) = (t ≤ now) × (wait ≤ 10 * minute) × IsTimed now cs

abbrev pub last_time : ℕ → List Call → ℕ
last_time t [] = t
last_time t (picking now ∷ cs) = last_time now cs
last_time t (reporting now v kind wait ∷ cs) = last_time now cs

-- At moment `t` no cooldown lasts more than ten minutes longer.
abbrev pub IsBenched : ℕ → Pool → Type 0
IsBenched t p = All (λ (e : String × ℕ). e.1 ≤ t + 10 * minute) (views p.keys)

All-mono :
    (t u : ℕ) (vs : List (String × ℕ))
    → t ≤ u
    → All (λ (e : String × ℕ). e.1 ≤ t + 10 * minute) vs
    → All (λ (e : String × ℕ). e.1 ≤ u + 10 * minute) vs
All-mono t u [] le h = tt
All-mono t u (e ∷ vs) le h = (omega arith, All-mono t u vs le h.1)

penalise_bound :
    (now : ℕ) (kind : FailKind) (wait : ℕ) (k : KeyState)
    → wait ≤ 10 * minute
    → k.cool_until ≤ now + 10 * minute
    → (penalise now kind wait k).cool_until ≤ now + 10 * minute
unfolding penalise
penalise_bound now success wait k w h = omega arith
penalise_bound now soft_fail wait k w h = ground (arith, backoff_bounds (k.soft_fails + 1) wait)
penalise_bound now hard_fail wait k w h = omega arith

report_keys_bound :
    (now : ℕ) (v : String) (kind : FailKind) (wait : ℕ) (ks : List KeyState)
    → wait ≤ 10 * minute
    → All (λ (e : String × ℕ). e.1 ≤ now + 10 * minute) (views ks)
    → All (λ (e : String × ℕ). e.1 ≤ now + 10 * minute) (views (report_keys now v kind wait ks))
unfolding report_keys
report_keys_bound now v kind wait [] w h = tt
report_keys_bound now v kind wait (k ∷ ks) w h = elim (Bool-cases (k.value == v)) [
  | inl this ↦ rw this (penalise_bound now kind wait k w h.0, h.1)
  | inr other ↦ rw other (h.0, report_keys_bound now v kind wait ks w h.1)
]

-- As long as the clock does not run backwards, no report asks for a wait of more than ten minutes (the
-- cap of `parseRetryAfter`), and no key is benched for longer at the start: after any picks and reports
-- no key is benched for more than ten minutes from the last call.
pub run-IsBenched :
    (cs : List Call) (t : ℕ) (p : Pool)
    → IsTimed t cs
    → IsBenched t p
    → IsBenched (last_time t cs) (run cs p)
unfolding run report_hint
run-IsBenched [] t p timed h = h
run-IsBenched (picking now ∷ cs) t p timed h =
    run-IsBenched cs now (pick now p).0 timed.1
      (rw (pick-views now p) (All-mono t now (views p.keys) timed.0 h))
run-IsBenched (reporting now v kind wait ∷ cs) t p timed h =
    run-IsBenched cs now (report_hint now v kind wait p) timed.2
      (report_keys_bound now v kind wait p.keys timed.1 (All-mono t now (views p.keys) timed.0 h))
