-- ===== src/Cache/Bounds.antt =====
-- internal/cache/cache.go: the cache never holds more entries than its limit.
use claude_code_gateway.Prelude.{
  ℕ, ◌≤◌, ◌<◌, ◌≡◌, refl, sym, String, List, [], ◌∷◌, ◌++◌, none, some, inl, inr, Bool-cases,
  Option-cases, ltb, if◌then◌else◌, ◌==◌, string_eq, arith, subst, length, In, In-append_left,
  In-append_right, Distinct, length-le_of_Distinct,
}
use text.Mathlib.TextEquality.{eq_iff}
use claude_code_gateway.Prelude.GoMap.{
  GoMap, get, put, delete, get-put, get-delete, keys, get-In, put-Distinct, delete-Distinct,
  length-keys,
}
use claude_code_gateway.Prelude.Int.{ℤ}
use claude_code_gateway.Cache.{
  Cache, Entry, EntryMeta, new, lookup, evict, ordered, put_with_ttl, flush, size, expired,
}

-- Each key held stands in the order of insertion, which is no longer than the limit.
pub record IsValid (c : Cache) : Type 0 where
  pub positive : 0 < c.max
  pub bounded : length c.order ≤ c.max
  pub distinct : Distinct (keys c.m)
  pub tracked : (k : String) (v : EntryMeta) → get c.m k ≡ some v → In k c.order

-- What the loop keeps of an order that may be too long.
record Evicted (max : ℕ) (r : List String × GoMap String EntryMeta) : Type 0 where
  bounded : length r.0 ≤ max
  distinct : Distinct (keys r.1)
  tracked : (k : String) (v : EntryMeta) → get r.1 k ≡ some v → In k r.0

evict-Evicted :
    (max : ℕ) (ks : List String) (m : GoMap String EntryMeta)
    → Distinct (keys m)
    → ((k : String) (v : EntryMeta) → get m k ≡ some v → In k ks)
    → Evicted max (evict max ks m)
unfolding evict
evict-Evicted max [] m d t = record { bounded = omega arith; distinct = d; tracked = t }
evict-Evicted max (k ∷ ks) m d t = elim (Bool-cases (ltb max (length (k ∷ ks)))) [
  | inl full ↦ rw full (
      evict-Evicted max ks (delete m k) (delete-Distinct m k d)
        (λ j v found. shorter j v (get-delete m k j) found))
  | inr room ↦ rw room (record { bounded = ground arith; distinct = d; tracked = t })
]
  where
    shorter :
        (j : String) (v : EntryMeta)
        → get (delete m k) j ≡ (if k == j then none else get m j)
        → get (delete m k) j ≡ some v
        → In j ks
    shorter j v law found = elim (t j v (ground (arith, law))) [
      | inl same ↦ absurd (ground (arith, law, eq_iff k j, sym same))
      | inr later ↦ later
    ]

pub ordered_new : (k : String) (c : Cache) → get c.m k ≡ none → ordered k c ≡ c.order ++ k ∷ []
ordered_new k c h = ground arith

pub ordered_old :
    (k : String) (c : Cache) (v : EntryMeta) → get c.m k ≡ some v → ordered k c ≡ c.order
ordered_old k c v h = ground arith

ordered-tracks :
    (k : String) (c : Cache) (v : EntryMeta)
    → IsValid c
    → (j : String) (w : EntryMeta) → get (put c.m k v) j ≡ some w
    → In j (ordered k c)
ordered-tracks k c v h j w found = elim (Option-cases (get c.m k)) [
  | inl new_key ↦ subst (In j) (sym (ordered_new k c new_key)) (elim (Bool-cases (k == j)) [
    | inl same ↦ In-append_right j c.order (k ∷ []) (inl (sym ((eq_iff k j).0 same)))
    | inr other ↦
        In-append_left j c.order (k ∷ []) (h.tracked j w (ground (arith, get-put c.m k j v)))
  ])
  | inr (old, here) ↦ subst (In j) (sym (ordered_old k c old here)) (elim (Bool-cases (k == j)) [
    | inl same ↦ h.tracked j old (ground (arith, eq_iff k j))
    | inr other ↦ h.tracked j w (ground (arith, get-put c.m k j v))
  ])
]

pub put_with_ttl-IsValid :
    (now : ℕ) (k : String) (e : Entry) (ttl : ℤ) (c : Cache)
    → IsValid c
    → IsValid (put_with_ttl now k e ttl c)
unfolding put_with_ttl
put_with_ttl-IsValid now k e ttl c h =
    let meta : EntryMeta = record { e = e; at = now; ttl = ttl } in
    let v =
      evict-Evicted c.max (ordered k c) (put c.m k meta) (put-Distinct c.m k meta h.distinct)
        (ordered-tracks k c meta h) in
    record {
      positive = h.positive;
      bounded = v.bounded;
      distinct = v.distinct;
      tracked = v.tracked;
    }

pub lookup-IsValid : (now : ℕ) (k : String) (c : Cache) → IsValid c → IsValid (lookup now k c).0
unfolding lookup
lookup-IsValid now k c h = elim (Option-cases (get c.m k)) [
  | inl missing ↦ rw (missing, lookup) h
  | inr (meta, here) ↦
      rw (here, lookup)
        (elim (Bool-cases (expired now c meta)) [
          | inl old ↦ rw old (record {
            positive = h.positive;
            bounded = h.bounded;
            distinct = delete-Distinct c.m k h.distinct;
            tracked = λ j v found. h.tracked j v (ground (arith, get-delete c.m k j));
          })
          | inr fresh ↦ rw fresh h
        ])
]

pub flush-IsValid : (c : Cache) → IsValid c → IsValid (flush c)
unfolding flush get
flush-IsValid c h = record {
  positive = h.positive;
  bounded = omega arith;
  distinct = tt;
  tracked = λ k v found. ground arith;
}

pub new-IsValid : (ttl max : ℤ) → IsValid (new ttl max)
unfolding new get
new-IsValid ttl max = record {
  positive = ground arith;
  bounded = omega arith;
  distinct = tt;
  tracked = λ k v found. ground arith;
}

pub size-le_max : (c : Cache) → IsValid c → size c ≤ c.max
unfolding size
size-le_max c h = omega (
  arith,
  length-keys c.m,
  h.bounded,
  length-le_of_Distinct (keys c.m) c.order h.distinct
      (λ k m. let (v, found) = get-In c.m k m in h.tracked k v found),
)

-- What a caller may do with the cache.
pub data Call : Type 0 where
  looking : ℕ → String → Call
  putting : ℕ → String → Entry → ℤ → Call
  flushing : Call

abbrev pub step : Call → Cache → Cache
step (looking now k) c = (lookup now k c).0
step (putting now k e ttl) c = put_with_ttl now k e ttl c
step flushing c = flush c

unfoldable pub run : List Call → Cache → Cache
run [] c = c
run (a ∷ as') c = run as' (step a c)

run-IsValid : (calls : List Call) (c : Cache) → IsValid c → IsValid (run calls c)
unfolding run
run-IsValid [] c h = h
run-IsValid (looking now k ∷ calls) c h = run-IsValid calls _ (lookup-IsValid now k c h)
run-IsValid (putting now k e ttl ∷ calls) c h =
    run-IsValid calls _ (put_with_ttl-IsValid now k e ttl c h)
run-IsValid (flushing ∷ calls) c h = run-IsValid calls _ (flush-IsValid c h)

run-max : (calls : List Call) (c : Cache) → (run calls c).max ≡ c.max
unfolding run lookup put_with_ttl flush
run-max [] c = refl
run-max (looking now k ∷ calls) c = ground (arith, run-max calls (lookup now k c).0)
run-max (putting now k e ttl ∷ calls) c = run-max calls _
run-max (flushing ∷ calls) c = run-max calls _

-- However a new cache is used, it never holds more entries than the limit that it was made with.
pub run-size-le :
    (ttl max : ℤ) (calls : List Call) → size (run calls (new ttl max)) ≤ (new ttl max).max
run-size-le ttl max calls = omega (
  arith,
  run-max calls (new ttl max),
  size-le_max (run calls (new ttl max)) (run-IsValid calls (new ttl max) (new-IsValid ttl max)),
)
