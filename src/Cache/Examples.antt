-- ===== src/Cache/Examples.antt =====
-- Runs of internal/cache/cache.go, and the integers as the floats of the semantic index.
use claude_code_gateway.Prelude.{
  leb, ◌+◌, ◌*◌, ◌≤◌, ◌≡◌, refl, [], ◌∷◌, some, none, arith, String, inl, inr, In, if◌then◌else◌,
  Bool-cases, ◌==◌, string_eq,
}
use text.Mathlib.TextEquality.{eq_iff}
use claude_code_gateway.Prelude.GoMap.{get}
use claude_code_gateway.Prelude.Floats.{Floats}
use claude_code_gateway.Prelude.Int.{ℤ, pos, negsuc, ◌+ℤ◌, ◌-ℤ◌, ltb_ℤ, leb_ℤ}
use claude_code_gateway.Prelude.Time.{second, minute}
use claude_code_gateway.Cache.{
  Cache, Entry, EntryMeta, new, lookup, put_with_ttl, put_entry, size, evict, flush,
}
use claude_code_gateway.Cache.Bounds.{looking, putting, run, run-size-le, IsValid}
use claude_code_gateway.Cache.Reads.{put-lookup, put-lookup_lost}
use claude_code_gateway.Cache.Semantic.{
  SemanticIndex, new_semantic, add_entry, search, search_from, cosine, sums, newton, sqrt_f,
}

program : Unit {0}
unfolding new lookup put_with_ttl put_entry size evict flush run get add_entry search search_from
    cosine sums newton sqrt_f new_semantic
program = tt

abbrev answer : String → Entry
answer s = record { body = s; input = pos 10; output = pos 20 }

run-size-le_example :
    size (
      run
        (putting 1 "a" (answer "x") (pos 0)
          ∷ looking 2 "a"
          ∷ putting 3 "b" (answer "y") (pos 0)
          ∷ [])
        (new (pos 0) (pos 1)))
    ≤ (new (pos 0) (pos 1)).max
run-size-le_example =
    run-size-le (pos 0) (pos 1)
      (putting 1 "a" (answer "x") (pos 0) ∷ looking 2 "a" ∷ putting 3 "b" (answer "y") (pos 0) ∷ [])

-- A cache with room for one entry, which holds one.
abbrev one : EntryMeta
one = record { e = answer "x"; at = 0; ttl = pos second }

abbrev full : Cache
full = record { ttl = pos minute; max = 1; m = ("a", one) ∷ []; order = "a" ∷ [] }

In-full : (k : String) (v : EntryMeta) → get full.m k ≡ some v → In k full.order
unfolding get
In-full k v h = elim (Bool-cases ("a" == k)) [
  | inl same ↦ inl (ground (arith, eq_iff "a" k))
  | inr other ↦ absurd (ground (arith, other))
]

full-IsValid : IsValid full
unfolding get
full-IsValid = record {
  positive = omega arith;
  bounded = omega arith;
  distinct = (λ e. e, tt);
  tracked = λ k v h. In-full k v h;
}

put-lookup_example :
    (lookup
      (30 * minute)
      "a"
      (put_with_ttl (2 * minute) "a" (answer "y") (pos (60 * minute)) full)).1
    ≡ (if leb (30 * minute) (2 * minute + 60 * minute) then some (answer "y") else none)
unfolding get
put-lookup_example =
    put-lookup (2 * minute) (30 * minute) (60 * minute) "a" (answer "y") (pos (60 * minute)) full
      full-IsValid (inr (one, refl)) (inl (omega arith, refl))

put-lookup_lost_example :
    (lookup
      (2 * minute)
      "a"
      (put_with_ttl (2 * minute) "a" (answer "y") (pos minute) (lookup (2 * minute) "a" full).0)).1
    ≡ none
unfolding get
put-lookup_lost_example =
    put-lookup_lost (2 * minute) (2 * minute) "a" [] one (answer "y") (pos minute) full refl refl
      refl refl

abbrev pub times : ℤ → ℤ → ℤ
times (pos a) (pos b) = pos (a * b)
times (pos a) (negsuc b) = negsuc 0
times (negsuc a) (pos b) = negsuc 0
times (negsuc a) (negsuc b) = pos ((a + 1) * (b + 1))

abbrev pub integers : Floats
integers = record {
  Float = ℤ;
  from_int = λ n. n;
  to_int = λ n. n;
  add = ◌+ℤ◌;
  sub = ◌-ℤ◌;
  mul = times;
  div = λ a b. a;
  lt = ltb_ℤ;
  le = leb_ℤ;
}

abbrev vectors : SemanticIndex integers
vectors = record {
  threshold = pos 1;
  max = 2;
  entries =
      record { vec = pos 1 ∷ pos 0 ∷ []; key = "east"; at = 1 }
      ∷ record { vec = pos 0 ∷ pos 2 ∷ []; key = "north"; at = 2 }
      ∷ [];
}
