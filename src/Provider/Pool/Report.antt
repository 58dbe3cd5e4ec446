-- ===== src/Provider/Pool/Report.antt =====
-- internal/provider/pool.go, `ReportHint`: what a report does to the keys.
use claude_code_gateway.Prelude.{
  ℕ, zero, suc, ◌+◌, ◌-◌, ◌*◌, ◌^◌, ◌≤◌, ◌<◌, ◌≡◌, ◌≢◌, refl, String, Bool, List, [], ◌∷◌, Option,
  none, some, ◌⊎◌, lt→ltb, if◌then◌else◌, arith, get_elem?, string_eq, ◌==◌,
}
use text.Mathlib.TextEquality.{eq_iff}
use claude_code_gateway.Prelude.Time.{second, minute}
use claude_code_gateway.Provider.Pool.{
  KeyState, Pool, FailKind, success, soft_fail, hard_fail, backoff, penalise, report_keys,
  report_hint, min_int, ready,
}

not_below : (n : ℕ) → min_int (suc (suc (suc (suc (suc n))))) 5 ≡ 5
not_below n = ground arith

pow_bounds : (n : ℕ) → (1 ≤ 2 ^ min_int n 5) × (2 ^ min_int n 5 ≤ 32)
pow_bounds zero = omega arith
pow_bounds (suc zero) = omega arith
pow_bounds (suc (suc zero)) = omega arith
pow_bounds (suc (suc (suc zero))) = omega arith
pow_bounds (suc (suc (suc (suc zero)))) = omega arith
pow_bounds (suc (suc (suc (suc (suc n))))) = rw (not_below n) (omega arith)

-- A soft failure costs at least ten seconds and the wait that the provider asks for, and at most
-- five minutes or that wait.
pub backoff_bounds :
    (n min_wait : ℕ)
    → (10 * second ≤ backoff n min_wait)
      × (min_wait ≤ backoff n min_wait)
      × ((backoff n min_wait ≤ 5 * minute) ⊎ (backoff n min_wait ≡ min_wait))
unfolding backoff
backoff_bounds n min_wait = let range = pow_bounds (n - 1) in ground (arith, range.0, range.1)

-- A report touches no key of another value, and no key's value.
pub report_keys_other :
    (now : ℕ) (v : String) (kind : FailKind) (wait : ℕ) (ks : List KeyState) (j : ℕ) (k : KeyState)
    → get_elem? ks j ≡ some k
    → k.value ≢ v
    → get_elem? (report_keys now v kind wait ks) j ≡ some k
unfolding report_keys
report_keys_other now v kind wait [] j k h other = ground arith
report_keys_other now v kind wait (x ∷ ks) zero k h other = ground (arith, eq_iff x.value v)
report_keys_other now v kind wait (x ∷ ks) (suc j) k h other =
    ground (arith, report_keys_other now v kind wait ks j k)

-- The first key with the value.
abbrev pub find_key : String → List KeyState → Option KeyState
find_key v [] = none
find_key v (k ∷ ks) = if k.value == v then some k else find_key v ks

penalise-value :
    (now : ℕ) (kind : FailKind) (wait : ℕ) (k : KeyState)
    → (penalise now kind wait k).value ≡ k.value
unfolding penalise
penalise-value now success wait k = refl
penalise-value now soft_fail wait k = refl
penalise-value now hard_fail wait k = refl

find_key-report_keys :
    (now : ℕ) (v : String) (kind : FailKind) (wait : ℕ) (ks : List KeyState) (k : KeyState)
    → find_key v ks ≡ some k
    → find_key v (report_keys now v kind wait ks) ≡ some (penalise now kind wait k)
unfolding report_keys
find_key-report_keys now v kind wait [] k h = ground arith
find_key-report_keys now v kind wait (x ∷ ks) k h =
    ground (arith, penalise-value now kind wait x, find_key-report_keys now v kind wait ks k)

-- A soft failure of a key of the pool is counted; its cooldown lasts at least ten seconds and the
-- wait asked for, at most five minutes or that wait unless it was longer before, and never shrinks.
pub report_hint-soft_fail :
    (now : ℕ) (v : String) (wait : ℕ) (p : Pool) (k : KeyState)
    → find_key v p.keys ≡ some k
    → (k' : KeyState) × (find_key v (report_hint now v soft_fail wait p).keys ≡ some k')
      × (k'.soft_fails ≡ k.soft_fails + 1)
      × (k'.fails ≡ k.fails + 1)
      × (k.cool_until ≤ k'.cool_until)
      × (now + 10 * second ≤ k'.cool_until)
      × (now + wait ≤ k'.cool_until)
      × ((k'.cool_until ≤ now + 5 * minute)
          ⊎ (k'.cool_until ≡ now + wait)
          ⊎ (k'.cool_until ≡ k.cool_until))
unfolding report_hint penalise
report_hint-soft_fail now v wait p k h =
    let (least, asked, most) = backoff_bounds (k.soft_fails + 1) wait in
    let k' = penalise now soft_fail wait k in
    (
      k',
      find_key-report_keys now v soft_fail wait p.keys k h,
      refl,
      refl,
      ground arith,
      ground arith,
      ground arith,
      ground arith,
    )

-- A success makes the key ready at every later moment and forgets its soft failures.
pub report_hint-success :
    (now : ℕ) (v : String) (wait : ℕ) (p : Pool) (k : KeyState)
    → find_key v p.keys ≡ some k
    → (k' : KeyState) × (find_key v (report_hint now v success wait p).keys ≡ some k')
      × (k'.soft_fails ≡ 0)
      × ((later : ℕ) → 0 < later → ready later k' ≡ Bool.true)
unfolding report_hint penalise
report_hint-success now v wait p k h = (
  penalise now success wait k,
  find_key-report_keys now v success wait p.keys k h,
  refl,
  λ later pos. lt→ltb 0 later pos,
)

-- A report leaves alone each key whose value is another.
pub report_hint_other :
    (now : ℕ) (v : String) (kind : FailKind) (wait : ℕ) (p : Pool) (j : ℕ) (k : KeyState)
    → get_elem? p.keys j ≡ some k
    → k.value ≢ v
    → get_elem? (report_hint now v kind wait p).keys j ≡ some k
unfolding report_hint
report_hint_other now v kind wait p j k h other =
    report_keys_other now v kind wait p.keys j k h other
