-- ===== src/Provider/Breaker/Opening.antt =====
-- internal/provider/provider.go: when the circuit breaker opens, and for how long.
use claude_code_gateway.Prelude.{
  ℕ, ◌+◌, ◌*◌, ◌%◌, ◌^◌, ◌≤◌, ◌<◌, ◌≡◌, refl, sym, subst, ◌∙◌, Bool, true, false, List, [], ◌∷◌,
  arith, if◌then◌else◌, ltb, inl, inr, Bool-cases, length,
}
use claude_code_gateway.Prelude.Time.{minute}
use claude_code_gateway.Provider.Breaker.{
  Health, note_upstream, is_open, unix, reaches, breaker_threshold,
}

-- The outcome of one upstream call, and when it was noted.
pub record Outcome : Type 0 where
  pub good : Bool
  pub at : ℕ

unfoldable pub note_all : List Outcome → Health → Health
note_all [] h = h
note_all (o ∷ os) h = note_all os (note_upstream o.good o.at h)

-- How many failures end the list, after `n` before it.
abbrev pub trailing : ℕ → List Outcome → ℕ
trailing n [] = n
trailing n (o ∷ os) = trailing (if o.good then 0 else n + 1) os

trailing-le : (n : ℕ) (os : List Outcome) → trailing n os ≤ n + length os
trailing-le n [] = omega arith
trailing-le n (o ∷ os) = ground (arith, trailing-le (if o.good then 0 else n + 1) os)

-- With `n` failures before it, the list reaches no five failures in a row.
abbrev pub IsQuiet : ℕ → List Outcome → Type 0
IsQuiet n [] = Unit
IsQuiet n (o ∷ os) =
    (o.good ≡ false → n + 1 < breaker_threshold) × IsQuiet (if o.good then 0 else n + 1) os

note_upstream-consec_fails :
    (o : Outcome) (h : Health)
    → (o.good ≡ false → h.consec_fails + 1 < 2 ^ 32)
    → (note_upstream o.good o.at h).consec_fails ≡ (if o.good then 0 else h.consec_fails + 1)
unfolding note_upstream
note_upstream-consec_fails o h small = elim (Bool-cases o.good) [
  | inl fine ↦ rw fine
  | inr failed ↦ let few = small failed in rw failed (omega arith)
]

-- The int32 counts the failures at the end, as long as it cannot have wrapped.
pub note_all-consec_fails :
    (os : List Outcome) (h : Health)
    → h.consec_fails + length os < 2 ^ 32
    → (note_all os h).consec_fails ≡ trailing h.consec_fails os
unfolding note_all
note_all-consec_fails [] h small = refl
note_all-consec_fails (o ∷ os) h small =
    let e = note_upstream-consec_fails o h (λ _. omega arith) in
    rw (← e) (note_all-consec_fails os (note_upstream o.good o.at h) (ground (arith, e)))

note_upstream-quiet :
    (o : Outcome) (h : Health)
    → (o.good ≡ false → h.consec_fails + 1 < breaker_threshold)
    → (note_upstream o.good o.at h).open_until ≡ h.open_until
unfolding note_upstream
note_upstream-quiet o h quiet = elim (Bool-cases o.good) [
  | inl fine ↦ rw fine
  | inr failed ↦
      let few = quiet failed in
      let below : reaches ((h.consec_fails + 1) % 2 ^ 32) ≡ false = ground arith in
      rw (failed, note_upstream, below)
]

-- As long as no five failures follow one another, the breaker's deadline stays as it is.
pub note_all-quiet :
    (os : List Outcome) (h : Health)
    → IsQuiet h.consec_fails os
    → (note_all os h).open_until ≡ h.open_until
unfolding note_all
note_all-quiet [] h q = refl
note_all-quiet (o ∷ os) h q =
    let e = note_upstream-consec_fails o h (λ failed. let few = q.0 failed in omega arith) in
    note_all-quiet os (note_upstream o.good o.at h) (subst (λ n. IsQuiet n os) (sym e) q.1)
    ∙ note_upstream-quiet o h q.0

opens :
    (t now : ℕ) (h : Health)
    → 4 ≤ h.consec_fails
    → h.consec_fails + 1 < 2 ^ 31
    → is_open now (note_upstream false t h) ≡ ltb (unix now) (unix (t + 2 * minute))
unfolding note_upstream is_open
opens t now h many small =
    let fifth : reaches ((h.consec_fails + 1) % 2 ^ 32) ≡ true = ground arith in
    rw fifth (ground arith)

-- Whatever came before, a failure that follows at least four others opens the breaker: it is open
-- at the moments before two minutes have passed, and at no other; and a success at any later time
-- does not close it sooner. (The int32 must not have wrapped.)
pub note_all-opens :
    (os : List Outcome) (h : Health) (t now later : ℕ)
    → 4 ≤ trailing h.consec_fails os
    → h.consec_fails + length os + 1 < 2 ^ 31
    → let h' = note_upstream false t (note_all os h) in
      (is_open now h' ≡ ltb (unix now) (unix (t + 2 * minute)))
      × (is_open now (note_upstream true later h') ≡ is_open now h')
unfolding note_upstream is_open
note_all-opens os h t now later many small =
    let e = note_all-consec_fails os h (omega arith) in
    let few = trailing-le h.consec_fails os in
    (opens t now (note_all os h) (omega arith) (omega arith), refl)
