-- ===== src/Provider/Pool/Pick.antt =====
-- internal/provider/pool.go, `Pick`: which key it returns.
use claude_code_gateway.Prelude.{
  ℕ, zero, suc, ◌≤◌, ◌<◌, ◌≡◌, refl, String, Bool, List, [], ◌∷◌, none, some, ◌⊎◌, inl, inr,
  Bool-cases, nat_beq, arith, length, get_elem?,
}
use claude_code_gateway.Prelude.Cyclic.{step_to, step_to-lt, step_to_lem}
use claude_code_gateway.Provider.Pool.{
  KeyState, Pool, Picked, no_keys, key, panic, deref, Scanned, found, exhausted, out_of_range, scan,
  settle, first_ready, pick,
}
use claude_code_gateway.Provider.Pool.Scan.{
  views, length-views, Stands, Passed, Outcome, scan-Outcome, scan-views,
}

-- What a caller may rely on: the key is one of the pool's, and it is ready, or else no key is ready
-- and none will be ready sooner.
abbrev pub IsBest : List (String × ℕ) → ℕ → Picked → Type 0
IsBest vs now no_keys = vs ≡ []
IsBest vs now panic = ⊥
IsBest vs now (key v) =
    (c : ℕ) × Stands vs v c
    × ((c < now)
        ⊎ ((j : ℕ) (w : String) (d : ℕ) → get_elem? vs j ≡ some (w, d) → (now ≤ d) × (c ≤ d)))

-- After a whole turn no position is left out.
get_elem?-lt {ℓ} :
    {A : Type ℓ} (xs : List A) (j : ℕ) (x : A) → get_elem? xs j ≡ some x → j < length xs
get_elem?-lt [] j x h = ground arith
get_elem?-lt (y ∷ xs) zero x h = omega arith
get_elem?-lt (y ∷ xs) (suc j) x h = omega (arith, get_elem?-lt xs j x h)

Passed-all :
    (vs : List (String × ℕ)) (start now : ℕ) (f : KeyState)
    → Passed vs start (length vs) now (some f)
    → (j : ℕ) (w : String) (d : ℕ) → get_elem? vs j ≡ some (w, d)
    → (now ≤ d) × (f.cool_until ≤ d)
Passed-all vs start now f h j w d here =
    let range : j < length vs = get_elem?-lt vs j (w, d) here in
    h.1 (step_to (length vs) start j) w d (step_to-lt (length vs) start j (omega arith))
      (rw (step_to_lem (length vs) start j range) here)

-- With no key ready the second loop finds none.
first_ready-none :
    (now : ℕ) (ks : List KeyState)
    → ((j : ℕ) (w : String) (d : ℕ) → get_elem? (views ks) j ≡ some (w, d) → now ≤ d)
    → first_ready now ks ≡ none
unfolding first_ready
first_ready-none now [] h = refl
first_ready-none now (k ∷ ks) h = ground (
  arith,
  h 0 k.value k.cool_until refl,
  first_ready-none now ks (λ j w d here. h (suc j) w d here),
)

-- What the first loop alone would return.
abbrev pub rotated : Scanned → Picked
rotated (found v) = key v
rotated (exhausted f) = deref f
rotated out_of_range = panic

-- Whatever the strategy, `Pick` settles on what the first loop gives.
settle-rotated :
    (now : ℕ) (r : Pool × Scanned) (vs : List (String × ℕ)) (start : ℕ)
    → views r.0.keys ≡ vs
    → 0 < length vs
    → Outcome vs start now r.1
    → settle now r ≡ (r.0, rotated r.1)
settle-rotated now (p, found v) vs start e some_key h = refl
settle-rotated now (p, exhausted none) vs start e some_key h = absurd (omega arith)
settle-rotated now (p, exhausted (some f)) vs start e some_key h =
    let all = Passed-all vs start now f h in
    let nothing : first_ready now p.keys ≡ none =
      first_ready-none now p.keys (λ j w d here. (all j w d (rw (← e) here)).0) in
    ground (arith, nothing)
settle-rotated now (p, out_of_range) vs start e some_key h = absurd h

rotated-IsBest :
    (now : ℕ) (s : Scanned) (vs : List (String × ℕ)) (start : ℕ)
    → 0 < length vs
    → Outcome vs start now s
    → IsBest vs now (rotated s)
rotated-IsBest now (found v) vs start some_key (c, at, hot) = (c, at, inl hot)
rotated-IsBest now (exhausted none) vs start some_key h = absurd (omega arith)
rotated-IsBest now (exhausted (some f)) vs start some_key h =
    (f.cool_until, h.0, inr (Passed-all vs start now f h))
rotated-IsBest now out_of_range vs start some_key h = absurd h

views-nil : (ks : List KeyState) → length ks ≡ 0 → views ks ≡ []
views-nil [] h = refl
views-nil (k ∷ ks) h = absurd (omega arith)

module _ (now : ℕ) (p : Pool) (pos : 0 < length p.keys) where
  whole_scan : Outcome (views p.keys) p.idx now (scan (length p.keys) 0 now p none).1
  whole_scan =
      scan-Outcome (length p.keys) 0 now p none (views p.keys) refl
        (omega (arith, length-views p.keys)) refl

  pub pick-scan :
      pick now p
      ≡ ((scan (length p.keys) 0 now p none).0, rotated (scan (length p.keys) 0 now p none).1)
  unfolding pick
  pick-scan =
      let some_key : nat_beq (length p.keys) 0 ≡ Bool.false = ground arith in
      rw (some_key, pick)
        (settle-rotated now (scan (length p.keys) 0 now p none) (views p.keys) p.idx
          (scan-views (length p.keys) 0 now p none pos).0 (omega (arith, length-views p.keys))
          whole_scan)

-- `Pick` never panics, reports that there are no keys exactly for an empty pool, and else returns
-- one of the pool's keys: one that is ready, or, if none is, one whose cooldown ends first.
pub pick-IsBest : (now : ℕ) (p : Pool) → IsBest (views p.keys) now (pick now p).1
unfolding pick
pick-IsBest now p = elim (Bool-cases (nat_beq (length p.keys) 0)) [
  | inl empty ↦ rw (empty, pick) (views-nil p.keys (ground arith))
  | inr some_key ↦
      let pos : 0 < length p.keys = ground arith in
      rw (pick-scan now p pos) (
        rotated-IsBest now (scan (length p.keys) 0 now p none).1 (views p.keys) p.idx
          (omega (arith, length-views p.keys)) (whole_scan now p pos))
]

-- A pick changes no key's value and no cooldown.
pub pick-views : (now : ℕ) (p : Pool) → views (pick now p).0.keys ≡ views p.keys
unfolding pick
pick-views now p = elim (Bool-cases (nat_beq (length p.keys) 0)) [
  | inl empty ↦ rw (empty, pick)
  | inr some_key ↦
      let pos : 0 < length p.keys = ground arith in
      rw (pick-scan now p pos) (scan-views (length p.keys) 0 now p none pos).0
]
