-- ===== src/Provider/Registry/Rules.antt =====
-- internal/provider/registry.go: the order of the routing rules, and the rule that a model meets.
use Prim.Native.String.{len}
use claude_code_gateway.Prelude.{
  ℕ, zero, suc, ◌≤◌, ◌≡◌, refl, ap, sym, ◌∙◌, String, Bool, true, false, List, [], ◌∷◌, Option,
  none, some, inl, inr, Bool-cases, arith, ltb, length, All, In, In-All, All-In,
}
use claude_code_gateway.Provider.Registry.{CompiledRule, exchange, sort_rules}
use claude_code_gateway.Provider.Registry.Choice.{applies, first_rule}

-- No rule has a longer prefix than one before it.
abbrev pub Falls : List CompiledRule → Type 0
Falls [] = Unit
Falls (x ∷ xs) = All (λ (r : CompiledRule). len r.prefix ≤ len x.prefix) xs × Falls xs

record Exchanged (x : CompiledRule) (rs : List CompiledRule) (f : CompiledRule)
    (rest : List CompiledRule) : Type 0 where
  kept : (q : CompiledRule) → In q (x ∷ rs) → In q (f ∷ rest)
  back : (q : CompiledRule) → In q (f ∷ rest) → In q (x ∷ rs)
  first : len x.prefix ≤ len f.prefix
  longest : All (λ (r : CompiledRule). len r.prefix ≤ len f.prefix) rest
  same_length : length rest ≡ length rs

Exchanged-step :
    (x r : CompiledRule) (rs : List CompiledRule) (f : CompiledRule) (rest : List CompiledRule)
    → Exchanged x rs f rest
    → len r.prefix ≤ len x.prefix
    → Exchanged x (r ∷ rs) f (r ∷ rest)
Exchanged-step x r rs f rest e le = record {
  kept = kept;
  back = back;
  first = e.first;
  longest = (omega arith, e.longest);
  same_length = ap suc e.same_length;
}
  where
    kept : (q : CompiledRule) → In q (x ∷ r ∷ rs) → In q (f ∷ r ∷ rest)
    kept q (inl h) = elim (e.kept q (inl h)) [ inl k ↦ inl k | inr k ↦ inr (inr k) ]
    kept q (inr (inl h)) = inr (inl h)
    kept q (inr (inr h)) = elim (e.kept q (inr h)) [ inl k ↦ inl k | inr k ↦ inr (inr k) ]

    back : (q : CompiledRule) → In q (f ∷ r ∷ rest) → In q (x ∷ r ∷ rs)
    back q (inl h) = elim (e.back q (inl h)) [ inl k ↦ inl k | inr k ↦ inr (inr k) ]
    back q (inr (inl h)) = inr (inl h)
    back q (inr (inr h)) = elim (e.back q (inr h)) [ inl k ↦ inl k | inr k ↦ inr (inr k) ]

swapped : (q x r : CompiledRule) (rs : List CompiledRule) → In q (x ∷ r ∷ rs) → In q (r ∷ x ∷ rs)
swapped q x r rs (inl h) = inr (inl h)
swapped q x r rs (inr (inl h)) = inl h
swapped q x r rs (inr (inr h)) = inr (inr h)

Exchanged-swap :
    (x r : CompiledRule) (rs : List CompiledRule) (f : CompiledRule) (rest : List CompiledRule)
    → Exchanged r (x ∷ rs) f rest
    → len x.prefix ≤ len r.prefix
    → Exchanged x (r ∷ rs) f rest
Exchanged-swap x r rs f rest e le = record {
  kept = λ q h. e.kept q (swapped q x r rs h);
  back = λ q h. swapped q r x rs (e.back q h);
  first = omega arith;
  longest = e.longest;
  same_length = e.same_length;
}

exchange-Exchanged :
    (x : CompiledRule) (rs : List CompiledRule) → Exchanged x rs (exchange x rs).0 (exchange x rs).1
unfolding exchange
exchange-Exchanged x [] = record {
  kept = λ q h. h;
  back = λ q h. h;
  first = omega arith;
  longest = tt;
  same_length = refl;
}
exchange-Exchanged x (r ∷ rs) = elim (Bool-cases (ltb (len x.prefix) (len r.prefix))) [
  | inl longer ↦ rw longer (
      Exchanged-swap x r rs (exchange r rs).0 (x ∷ (exchange r rs).1)
        (Exchanged-step r x rs (exchange r rs).0 (exchange r rs).1 (exchange-Exchanged r rs)
          (ground arith))
        (ground arith))
  | inr not_longer ↦ rw not_longer (
      Exchanged-step x r rs (exchange x rs).0 (exchange x rs).1 (exchange-Exchanged x rs)
        (ground arith))
]

record Sorted (n : ℕ) (rs : List CompiledRule) : Type 0 where
  falls : length rs ≤ n → Falls (sort_rules n rs)
  kept : (q : CompiledRule) → In q rs → In q (sort_rules n rs)
  back : (q : CompiledRule) → In q (sort_rules n rs) → In q rs

sort_rules-Sorted : (n : ℕ) (rs : List CompiledRule) → Sorted n rs
unfolding sort_rules
sort_rules-Sorted zero [] = record { falls = λ _. tt; kept = λ q h. h; back = λ q h. h }
sort_rules-Sorted zero (x ∷ rs) = record {
  falls = λ h. absurd (omega arith);
  kept = λ q h. h;
  back = λ q h. h;
}
sort_rules-Sorted (suc n) [] = record { falls = λ _. tt; kept = λ q h. h; back = λ q h. h }
sort_rules-Sorted (suc n) (x ∷ rs) =
    let e = exchange-Exchanged x rs in
    let s = sort_rules-Sorted n (exchange x rs).1 in
    record {
      falls = λ h. (
        All-In _ _ (λ q m. In-All _ q _ e.longest (s.back q m)),
        s.falls (omega (arith, e.same_length)),
      );
      kept = λ q h. elim (e.kept q h) [ inl k ↦ inl k | inr k ↦ inr (s.kept q k) ];
      back = λ q h. elim h [ inl k ↦ e.back q (inl k) | inr k ↦ e.back q (inr (s.back q k)) ];
    }

-- In a sorted list the first rule that applies has the longest prefix of those that do.
abbrev pub Longest : List CompiledRule → String → Option CompiledRule → Type 0
Longest rs model none = (q : CompiledRule) → In q rs → applies q model ≡ false
Longest rs model (some ru) =
    In ru rs
    × (applies ru model ≡ true)
    × ((q : CompiledRule) → In q rs → applies q model ≡ true → len q.prefix ≤ len ru.prefix)

apart : {b : Bool} → b ≡ false → b ≡ true → ⊥
apart h k = ground arith

first_rule-Longest :
    (rs : List CompiledRule) (model : String) → Falls rs → Longest rs model (first_rule rs model)
unfolding first_rule
first_rule-Longest [] model f = λ q h. absurd h
first_rule-Longest (x ∷ rs) model f = elim (Bool-cases (applies x model)) [
  | inl fits ↦ rw fits (inl refl, fits, λ q m _. here q m)
  | inr other ↦ rw other (later other (first_rule rs model) (first_rule-Longest rs model f.1))
]
  where
    here : (q : CompiledRule) → In q (x ∷ rs) → len q.prefix ≤ len x.prefix
    here q (inl e) = rw e (omega arith)
    here q (inr m) = In-All _ q rs f.0 m

    later :
        applies x model ≡ false
        → (o : Option CompiledRule) → Longest rs model o
        → Longest (x ∷ rs) model o
    later other none h = λ q m. elim m [ inl e ↦ rw e other | inr k ↦ h q k ]
    later other (some ru) h = (
      inr h.0,
      h.1,
      λ q m a. elim m [
        | inl e ↦ absurd (apart other (ap (λ t. applies t model) (sym e) ∙ a))
        | inr k ↦ h.2 q k a
      ],
    )

-- Of the rules that apply to a model, `Resolve` uses one with the longest prefix, whatever their
-- order in the configuration; it uses none exactly if none applies.
pub sort_rules-Longest :
    (rs : List CompiledRule) (model : String)
    → Longest rs model (first_rule (sort_rules (length rs) rs) model)
sort_rules-Longest rs model =
    let s = sort_rules-Sorted (length rs) rs in
    from_sorted s (first_rule (sort_rules (length rs) rs) model)
      (first_rule-Longest (sort_rules (length rs) rs) model (s.falls (omega arith)))
  where
    from_sorted :
        Sorted (length rs) rs
        → (o : Option CompiledRule) → Longest (sort_rules (length rs) rs) model o
        → Longest rs model o
    from_sorted s none h = λ q m. h q (s.kept q m)
    from_sorted s (some ru) h = (s.back ru h.0, h.1, λ q m. h.2 q (s.kept q m))
