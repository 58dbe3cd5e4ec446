-- ===== src/Provider/Pool/Scan.antt =====
-- internal/provider/pool.go, the first loop of `Pick`: what it has seen, and how it ends.
use claude_code_gateway.Prelude.{
  ℕ, zero, suc, ◌+◌, ◌%◌, ◌≤◌, ◌<◌, ◌≡◌, refl, ap, String, Bool, List, [], ◌∷◌, map, Option, none,
  some, inl, inr, Bool-cases, ltb, ltb→lt, ◌&&◌, nat_beq, if◌then◌else◌, arith, ◌∙◌, sym, subst,
  length, get_elem?, set, length-set, map-set, get_elem?_total,
}
use claude_code_gateway.Prelude.Cyclic.{mod-range}
use claude_code_gateway.Provider.Pool.{
  KeyState, Pool, Scanned, found, exhausted, out_of_range, scan, counted, sooner, ready,
}

-- What `Pick` reads of a key: its value, and the end of its cooldown.
abbrev pub view : KeyState → String × ℕ
view k = (k.value, k.cool_until)

abbrev pub views : List KeyState → List (String × ℕ)
views = map view

pub length-views : (ks : List KeyState) → length (views ks) ≡ length ks
length-views [] = refl
length-views (k ∷ ks) = ap suc (length-views ks)

pub get_elem?-views :
    (ks : List KeyState) (j : ℕ) (k : KeyState)
    → get_elem? ks j ≡ some k
    → get_elem? (views ks) j ≡ some (view k)
get_elem?-views [] j k h = ground arith
get_elem?-views (x ∷ ks) zero k h = ground arith
get_elem?-views (x ∷ ks) (suc j) k h = get_elem?-views ks j k h

-- The entry `(v, c)` stands in the pool.
abbrev pub Stands : List (String × ℕ) → String → ℕ → Type 0
Stands vs v c = (j : ℕ) × (get_elem? vs j ≡ some (v, c))

-- After `i` rounds none of the keys seen is ready, and the fallback is the soonest of them.
abbrev pub Passed : List (String × ℕ) → ℕ → ℕ → ℕ → Option KeyState → Type 0
Passed vs start i now none = i ≡ 0
Passed vs start i now (some f) =
    Stands vs f.value f.cool_until
    × ((m : ℕ) (v : String) (c : ℕ)
        → m < i
        → get_elem? vs ((start + m) % length vs) ≡ some (v, c)
        → (now ≤ c) × (f.cool_until ≤ c))

abbrev pub Outcome : List (String × ℕ) → ℕ → ℕ → Scanned → Type 0
Outcome vs start now (found v) = (c : ℕ) × Stands vs v c × (c < now)
Outcome vs start now (exhausted f) = Passed vs start (length vs) now f
Outcome vs start now out_of_range = ⊥

-- At the position of the key just seen stands that key.
same_position :
    (vs : List (String × ℕ)) (start i m : ℕ) (k : KeyState) (v : String) (c : ℕ)
    → get_elem? vs ((start + i) % length vs) ≡ some (view k)
    → get_elem? vs ((start + m) % length vs) ≡ some (v, c)
    → m ≡ i
    → c ≡ k.cool_until
same_position vs start i m k v c at here e =
    let here' : get_elem? vs ((start + i) % length vs) ≡ some (v, c) = rw (← e) here in ground arith

-- One more key that is not ready.
Passed-step :
    (vs : List (String × ℕ)) (start i now : ℕ) (k : KeyState) (fb : Option KeyState)
    → get_elem? vs ((start + i) % length vs) ≡ some (view k)
    → ready now k ≡ Bool.false
    → Passed vs start i now fb
    → Passed vs start (i + 1) now (if sooner k fb then some (counted k) else fb)
Passed-step vs start i now k none at cold h = (
  ((start + i) % length vs, at),
  λ m v c lt here. ground (arith, same_position vs start i m k v c at here),
)
Passed-step vs start i now k (some f) at cold h =
    elim (Bool-cases (ltb k.cool_until f.cool_until)) [
      | inl less ↦ rw less (
        ((start + i) % length vs, at),
        λ m v c lt here.
            ground
              (arith, same_position vs start i m k v c at here, λ (p : m < i). h.1 m v c p here),
      )
      | inr more ↦ rw more (
        h.0,
        λ m v c lt here.
            ground
              (arith, same_position vs start i m k v c at here, λ (p : m < i). h.1 m v c p here),
      )
    ]

-- The rounds that are left end in the outcome of the whole loop.
pub scan-Outcome :
    (left i now : ℕ) (p : Pool) (fb : Option KeyState) (vs : List (String × ℕ))
    → views p.keys ≡ vs
    → left + i ≡ length vs
    → Passed vs p.idx i now fb
    → Outcome vs p.idx now (scan left i now p fb).1
unfolding scan
scan-Outcome zero i now p fb vs e n h =
    let done : i ≡ length vs = omega arith in subst (λ t. Passed vs p.idx t now fb) done h
scan-Outcome (suc left) i now p fb vs e n h =
    let len : length p.keys ≡ length vs = sym (length-views p.keys) ∙ ap length e in
    let range : (p.idx + i) % length p.keys < length p.keys =
      mod-range (p.idx + i) (length p.keys) (omega arith) in
    let (k, here) = get_elem?_total p.keys ((p.idx + i) % length p.keys) range in
    let at : get_elem? vs ((p.idx + i) % length vs) ≡ some (view k) =
      rw (← len, ← e) (get_elem?-views p.keys _ k here) in
    rw (here, scan)
      (elim (Bool-cases (ready now k)) [
        | inl hot ↦ rw (hot, scan) (k.cool_until, ((p.idx + i) % length vs, at), ltb→lt _ _ hot)
        | inr cold ↦
            let quiet : (p.fill_first && nat_beq i 0 && ready now k) ≡ Bool.false = ground arith in
            rw (quiet, cold)
              (scan-Outcome left (i + 1) now
                (record p { keys = set p.keys ((p.idx + i) % length p.keys) (counted k) })
                (if sooner k fb then some (counted k) else fb) vs
                (map-set view p.keys _ (counted k) k here refl ∙ e) (omega arith)
                (Passed-step vs p.idx i now k fb at cold h))
      ])

-- The loop changes the counts of picks only, and whose turn is next.
pub scan-views :
    (left i now : ℕ) (p : Pool) (fb : Option KeyState)
    → 0 < length p.keys
    → (views (scan left i now p fb).0.keys ≡ views p.keys)
      × ((scan left i now p fb).0.fill_first ≡ p.fill_first)
unfolding scan
scan-views zero i now p fb pos = (refl, refl)
scan-views (suc left) i now p fb pos =
    let (k, here) = get_elem?_total p.keys ((p.idx + i) % length p.keys) (mod-range _ _ pos) in
    let p' : Pool = record p { keys = set p.keys ((p.idx + i) % length p.keys) (counted k) } in
    let same : views p'.keys ≡ views p.keys = map-set view p.keys _ (counted k) k here refl in
    let more : 0 < length p'.keys =
      omega (arith, length-set p.keys ((p.idx + i) % length p.keys) (counted k)) in
    let rest = scan-views left (i + 1) now p' (if sooner k fb then some (counted k) else fb) more in
    rw (here, scan)
      (elim (Bool-cases (ready now k)) [
        | inl hot ↦ rw (hot, scan) (same, refl)
        | inr cold ↦
            let quiet : (p.fill_first && nat_beq i 0 && ready now k) ≡ Bool.false = ground arith in
            rw (quiet, cold) (rest.0 ∙ same, rest.1)
      ])
