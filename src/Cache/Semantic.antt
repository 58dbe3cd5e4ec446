-- ===== src/Cache/Semantic.antt =====
-- internal/cache/cache.go, `SemanticIndex`: the vectors of cached prompts, and the search for the one
-- most similar to a new prompt. The float32 values of a vector are given as the floats that the code
-- converts them to. Floats are a parameter, also where the code writes a constant.
use claude_code_gateway.Prelude.{
  ℕ, zero, suc, ◌-◌, ◌≤◌, ◌<◌, ◌≡◌, refl, String, Bool, true, false, not, ◌&&◌, List, [], ◌∷◌, ◌++◌,
  Option, none, some, In-append_right, In-drop_last, ◌⊎◌, inl, inr, Bool-cases, Option-cases, ltb,
  if◌then◌else◌, ◌==◌, string_eq, arith, length, drop, In, length-append, length-drop, sym, ap, ◌∙◌,
}
use text.Mathlib.TextEquality.{eq_iff}
use claude_code_gateway.Prelude.Floats.{Floats}
use claude_code_gateway.Prelude.Int.{ℤ, pos, negsuc, leb_ℤ, pos_part}

module _ (F : Floats) where
  open F use {Float, from_int, add, sub, mul, div, lt, le}

  abbrev ratio : ℤ → ℤ → Float
  ratio a b = div (from_int a) (from_int b)

  abbrev zero_float : Float
  zero_float = from_int (pos 0)

  -- `==` of two floats
  abbrev same : Float → Float → Bool
  same a b = le a b && le b a

  pub record SemEntry : Type 0 where
    pub vec : List Float
    pub key : String
    pub at : ℕ

  -- `max` is positive, by `NewSemantic`.
  pub record SemanticIndex : Type 0 where
    pub threshold : Float
    pub max : ℕ
    pub entries : List SemEntry

  unfoldable pub new_semantic : Float → ℤ → SemanticIndex
  new_semantic threshold max = record {
    threshold = if le threshold zero_float then ratio (pos 93) (pos 100) else threshold;
    max = if leb_ℤ max (pos 0) then 1000 else pos_part max;
    entries = [];
  }

  -- The loop of `Cosine`: the three sums, or a panic where the second vector is shorter.
  unfoldable pub sums :
      List Float → List Float → Float × Float × Float → Option (Float × Float × Float)
  sums [] b s = some s
  sums (x ∷ a) [] s = none
  sums (x ∷ a) (y ∷ b) (dot, na, nb) =
      sums a b (add dot (mul x y), add na (mul x x), add nb (mul y y))

  -- Newton's method, with the rounds that are left.
  unfoldable pub newton : ℕ → Float → Float → Float
  newton zero x g = g
  newton (suc n) x g = newton n x (div (add g (div x g)) (from_int (pos 2)))

  unfoldable pub sqrt_f : Float → Float
  unfolding newton
  sqrt_f x = if le x zero_float then zero_float else newton 24 x x

  unfoldable pub cosine : List Float → List Float → Option Float
  unfolding sums
  cosine a b = elim (sums a b (zero_float, zero_float, zero_float)) [
    | none ↦ none
    | some (dot, na, nb) ↦
        if same na zero_float
        then some zero_float
        else if same nb zero_float
        then some zero_float
        else some (div dot (mul (sqrt_f na) (sqrt_f nb)))
  ]

  unfoldable pub add_entry : ℕ → String → List Float → SemanticIndex → SemanticIndex
  add_entry now key vec s =
      let entries = s.entries ++ record { vec = vec; key = key; at = now } ∷ [] in
      record s {
        entries =
            if ltb s.max (length entries) then drop (length entries - s.max) entries else entries;
      }

  -- The loop of `Search`: the best key and similarity so far, or a panic.
  unfoldable pub search_from : List Float → List SemEntry → Float × String → Option (Float × String)
  search_from vec [] best = some best
  search_from vec (e ∷ es) (best, key) = elim (cosine vec e.vec) [
    | none ↦ none
    | some c ↦ search_from vec es (if lt best c then (c, e.key) else (best, key))
  ]

  -- What `Search` returns: a panic is `none`, and `"", 0, false` is `some none`.
  unfoldable pub search : List Float → SemanticIndex → Option (Option (String × Float))
  unfolding search_from
  search vec s = elim (search_from vec s.entries (ratio (negsuc 0) (pos 1), "")) [
    | none ↦ none
    | some (best, key) ↦
        some (if le s.threshold best && not (key == "") then some (key, best) else none)
  ]

  -- The index never holds more entries than its limit, and the newest is among them.
  pub add_entry_bounds :
      (now : ℕ) (key : String) (vec : List Float) (s : SemanticIndex)
      → 0 < s.max
      → (length (add_entry now key vec s).entries ≤ s.max)
        × In (record { vec = vec; key = key; at = now }) (add_entry now key vec s).entries
  unfolding add_entry
  add_entry_bounds now key vec s pos' =
      let x : SemEntry = record { vec = vec; key = key; at = now } in
      let len = length-append s.entries (x ∷ []) in
      elim (Bool-cases (ltb s.max (length (s.entries ++ x ∷ [])))) [
        | inl full ↦ rw full (
          omega (
            arith,
            length-drop (length (s.entries ++ x ∷ []) - s.max) (s.entries ++ x ∷ []),
            len,
          ),
          In-drop_last (length (s.entries ++ x ∷ []) - s.max) s.entries x (ground (arith, len)),
        )
        | inr room ↦ rw room (ground arith, In-append_right x s.entries (x ∷ []) (inl refl))
      ]

  -- Where a best candidate comes from.
  abbrev Comes : List Float → List SemEntry → Float × String → Float × String → Type 0
  Comes vec es start r =
      (r ≡ start) ⊎ ((e : SemEntry) × In e es × (e.key ≡ r.1) × (cosine vec e.vec ≡ some r.0))

  abbrev widen :
      (vec : List Float) (e : SemEntry) (es : List SemEntry) (start r : Float × String)
      → Comes vec es start r
      → Comes vec (e ∷ es) start r
  widen vec e es start r (inl same_start) = inl same_start
  widen vec e es start r (inr (x, m, k, c)) = inr (x, inr m, k, c)

  search_from-Comes :
      (vec : List Float) (es : List SemEntry) (start r : Float × String)
      → search_from vec es start ≡ some r
      → Comes vec es start r
  unfolding search_from
  search_from-Comes vec [] start r h = inl (ground arith)
  search_from-Comes vec (e ∷ es) (best, key) r h = elim (Option-cases (cosine vec e.vec)) [
    | inl out ↦ absurd (ground (arith, out))
    | inr (c, sim) ↦
        let next : search_from vec es (if lt best c then (c, e.key) else (best, key)) ≡ some r =
          ground (arith, sim) in
        elim (Bool-cases (lt best c)) [
          | inl better ↦ elim (search_from-Comes vec es (c, e.key) r (rw better at next)) [
            | inl first ↦ inr (
              e,
              inl refl,
              ap (λ (t : Float × String). t.1) (sym first),
              sim ∙ ap (λ (t : Float × String). some t.0) (sym first),
            )
            | inr (x, m, k, c') ↦ inr (x, inr m, k, c')
          ]
          | inr worse ↦
              widen vec e es (best, key) r
                (search_from-Comes vec es (best, key) r (rw worse at next))
        ]
  ]

  -- What `Search` finds is the key of an entry of the index whose similarity to the vector is the one
  -- returned, and reaches the threshold.
  pub search-entry :
      (vec : List Float) (s : SemanticIndex) (key : String) (sim : Float)
      → search vec s ≡ some (some (key, sim))
      → (le s.threshold sim ≡ true)
        × (e : SemEntry) × In e s.entries
        × (e.key ≡ key)
        × (cosine vec e.vec ≡ some sim)
  unfolding search
  search-entry vec s key sim h =
      elim (Option-cases (search_from vec s.entries (ratio (negsuc 0) (pos 1), ""))) [
        | inl panicked ↦ absurd (ground (arith, panicked))
        | inr ((best, k), found) ↦
            let reached : le s.threshold best ≡ true = ground (arith, found) in
            let named : (k == "") ≡ false = ground (arith, found) in
            let this : (k ≡ key) × (best ≡ sim) = ground (arith, found, reached, named) in
            elim (search_from-Comes vec s.entries (ratio (negsuc 0) (pos 1), "") (best, k) found) [
              | inl start ↦
                  absurd (ground (arith, eq_iff k "", ap (λ (t : Float × String). t.1) start))
              | inr (e, m, ke, c) ↦ (rw (← this.1) reached, e, m, ke ∙ this.0, c ∙ ap some this.1)
            ]
      ]
