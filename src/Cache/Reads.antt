-- ===== src/Cache/Reads.antt =====
-- internal/cache/cache.go: what can be read after an entry has been put.
use claude_code_gateway.Prelude.{
  ℕ, ◌+◌, ◌≤◌, ◌<◌, ◌≡◌, refl, ap, sym, ◌∙◌, subst, String, true, List, [], ◌∷◌, ◌++◌, none, some,
  inl, inr, ◌⊎◌, Bool-cases, Option-cases, ltb, if◌then◌else◌, string_eq, arith, length,
  length-append, In, false, leb,
}
use text.Mathlib.TextEquality.{eq_iff}
use claude_code_gateway.Prelude.GoMap.{GoMap, get, put, delete, get-delete, get-put_self}
use claude_code_gateway.Prelude.Int.{ℤ, pos, leb_ℤ}
use claude_code_gateway.Cache.{
  Cache, Entry, EntryMeta, lookup, evict, ordered, put_with_ttl, expired,
}
use claude_code_gateway.Cache.Bounds.{IsValid, ordered_new, ordered_old}

evict_fits :
    (max : ℕ) (ks : List String) (m : GoMap String EntryMeta)
    → length ks ≤ max
    → evict max ks m ≡ (ks, m)
unfolding evict
evict_fits max [] m h = refl
evict_fits max (k ∷ ks) m h = ground arith

evict_first :
    (max : ℕ) (k : String) (ks : List String) (m : GoMap String EntryMeta)
    → length ks ≡ max
    → evict max (k ∷ ks) m ≡ (ks, delete m k)
unfolding evict
evict_first max k ks m h = ground (arith, evict_fits max ks (delete m k))

-- An entry that stands, and is not the one to go, is still there.
evict_keeps :
    (max : ℕ) (order : List String) (k : String) (v : EntryMeta) (m : GoMap String EntryMeta)
    → 0 < max
    → length order ≤ max
    → ¬ In k order
    → get m k ≡ some v
    → get (evict max (order ++ k ∷ []) m).1 k ≡ some v
evict_keeps max [] k v m pos' bound absent here = rw (evict_fits max (k ∷ []) m (omega arith)) here
evict_keeps max (h ∷ order) k v m pos' bound absent here =
    elim (Bool-cases (ltb (length order + 1) max)) [
      | inl room ↦
          rw
            (evict_fits max (h ∷ (order ++ k ∷ [])) m
              (ground (arith, length-append order (k ∷ []))))
            here
      | inr full ↦
          rw (evict_first max h (order ++ k ∷ []) m (ground (arith, length-append order (k ∷ []))))
            (ground (arith, get-delete m h k, eq_iff h k, here, λ (e : k ≡ h). absent (inl e)))
    ]

stays :
    (now : ℕ) (k : String) (e : Entry) (ttl : ℤ) (c : Cache)
    → IsValid c
    → (¬ In k c.order) ⊎ ((old : EntryMeta) × (get c.m k ≡ some old))
    → get (put_with_ttl now k e ttl c).m k ≡ some (record { e = e; at = now; ttl = ttl })
unfolding put_with_ttl
stays now k e ttl c h (inl absent) =
    let meta : EntryMeta = record { e = e; at = now; ttl = ttl } in
    elim (Option-cases (get c.m k)) [
      | inl new_key ↦
          subst (λ ks. get (evict c.max ks (put c.m k meta)).1 k ≡ some meta)
            (sym (ordered_new k c new_key))
            (evict_keeps c.max c.order k meta (put c.m k meta) h.positive h.bounded absent
              (get-put_self c.m k meta))
      | inr (old, here) ↦ absurd (absent (h.tracked k old here))
    ]
stays now k e ttl c h (inr (old, here)) =
    let meta : EntryMeta = record { e = e; at = now; ttl = ttl } in
    subst (λ ks. get (evict c.max ks (put c.m k meta)).1 k ≡ some meta)
      (sym (ordered_old k c old here))
      (rw (evict_fits c.max c.order (put c.m k meta) h.bounded) (get-put_self c.m k meta))

lookup_hit :
    (now : ℕ) (k : String) (c : Cache) (meta : EntryMeta)
    → get c.m k ≡ some meta
    → (lookup now k c).1 ≡ (if expired now c meta then none else some meta.e)
unfolding lookup
lookup_hit now k c meta h = ground arith

-- An entry with a time to live of its own lasts that long; one without, as long as the cache has it.
abbrev pub Lasts : ℤ → ℤ → ℕ → Type 0
Lasts ttl of_cache d = ((0 < d) × (ttl ≡ pos d)) ⊎ ((leb_ℤ ttl (pos 0) ≡ true) × (of_cache ≡ pos d))

expired-le :
    (now later d : ℕ) (e : Entry) (ttl : ℤ) (c : Cache)
    → Lasts ttl c.ttl d
    → expired later c (record { e = e; at = now; ttl = ttl })
      ≡ (if leb later (now + d) then false else true)
expired-le now later d e ttl c (inl (own, is_d)) = ground (arith, own, is_d)
expired-le now later d e ttl c (inr (none', is_d)) = ground (arith, none', is_d)

-- A key that is held, or that has no place in the order, can be read back after `Put` as long as the
-- time to live (its own, or the cache's where it has none) has not passed, and not after that.
pub put-lookup :
    (now later d : ℕ) (k : String) (e : Entry) (ttl : ℤ) (c : Cache)
    → IsValid c
    → (¬ In k c.order) ⊎ ((old : EntryMeta) × (get c.m k ≡ some old))
    → Lasts ttl c.ttl d
    → (lookup later k (put_with_ttl now k e ttl c)).1
      ≡ (if leb later (now + d) then some e else none)
unfolding put_with_ttl
put-lookup now later d k e ttl c h where_k lasts =
    lookup_hit later k (put_with_ttl now k e ttl c) (record { e = e; at = now; ttl = ttl })
      (stays now k e ttl c h where_k)
    ∙ ground (arith, expired-le now later d e ttl c lasts)

lookup_miss : (now : ℕ) (k : String) (c : Cache) → get c.m k ≡ none → (lookup now k c).1 ≡ none
unfolding lookup
lookup_miss now k c h = ground arith

lookup_old :
    (now : ℕ) (k : String) (c : Cache) (meta : EntryMeta)
    → get c.m k ≡ some meta
    → expired now c meta ≡ true
    → (lookup now k c).0 ≡ record c { m = delete c.m k }
unfolding lookup
lookup_old now k c meta h old = ground arith

-- In a full order a new key whose old place comes first is evicted at once.
put_evicts_itself :
    (now : ℕ) (k : String) (rest : List String) (e : Entry) (ttl : ℤ) (c : Cache)
    → c.order ≡ k ∷ rest
    → length c.order ≡ c.max
    → get c.m k ≡ none
    → get (put_with_ttl now k e ttl c).m k ≡ none
unfolding put_with_ttl
put_evicts_itself now k rest e ttl c first full missing =
    let meta : EntryMeta = record { e = e; at = now; ttl = ttl } in
    let whole : ordered k c ≡ k ∷ (rest ++ k ∷ []) =
      ordered_new k c missing ∙ ap (λ t. t ++ k ∷ []) first in
    let size : length rest + 1 ≡ c.max = omega (arith, full, ap length first) in
    subst (λ ks. get (evict c.max ks (put c.m k meta)).1 k ≡ none) (sym whole)
      (rw
        (evict_first c.max k (rest ++ k ∷ []) (put c.m k meta)
          (omega (arith, length-append rest (k ∷ []))))
        (ground (arith, get-delete (put c.m k meta) k k, eq_iff k k)))

-- `Get` drops an expired entry but leaves its key in the order; so if the key comes first in a full
-- order, the next `Put` of that key drops what it has just put.
pub put-lookup_lost :
    (now later : ℕ) (k : String) (rest : List String) (meta : EntryMeta) (e : Entry) (ttl : ℤ)
    (c : Cache)
    → c.order ≡ k ∷ rest
    → length c.order ≡ c.max
    → get c.m k ≡ some meta
    → expired now c meta ≡ true
    → (lookup later k (put_with_ttl now k e ttl (lookup now k c).0)).1 ≡ none
put-lookup_lost now later k rest meta e ttl c first full here old =
    subst (λ t. (lookup later k (put_with_ttl now k e ttl t)).1 ≡ none)
      (sym (lookup_old now k c meta here old))
      (lookup_miss later k _ (
        put_evicts_itself now k rest e ttl (record c { m = delete c.m k }) first full
          (ground (arith, get-delete c.m k k, eq_iff k k))))
