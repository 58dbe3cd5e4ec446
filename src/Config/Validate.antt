-- ===== src/Config/Validate.antt =====
-- internal/config/config.go, `validate`: what a configuration that passes can be relied on for.
use claude_code_gateway.Prelude.{
  ℕ, ◌+◌, ◌≡◌, ◌≢◌, ◌⊎◌, ◌↔◌, refl, sym, String, Bool, true, false, List, [], ◌∷◌, map, none, inl,
  inr, Bool-cases, ◌∙◌, if◌then◌else◌, ◌==◌, string_eq, arith, All,
}
use text.Mathlib.TextEquality.{eq_iff}
use claude_code_gateway.Prelude.GoMap.{GoMap, get, put, get-put}
use claude_code_gateway.Config
use claude_code_gateway.Config.{
  Config, Checked, fine, bad, known, known_type, usable, check_providers, check_chain, check_rules,
  check_webhooks, check_routing, validate,
}

abbrev pub Elem : String → List String → Type 0
Elem n [] = ⊥
Elem n (x ∷ xs) = (n ≡ x) ⊎ Elem n xs

abbrev pub Distinct : List String → Type 0
Distinct [] = Unit
Distinct (x ∷ xs) = (¬ Elem x xs) × Distinct xs

abbrev pub names : List Config.Provider → List String
names = map (λ p. p.name)

abbrev pub SomeUsable : List Config.Provider → Type 0
SomeUsable [] = ⊥
SomeUsable (p ∷ ps) = (usable p ≡ true) ⊎ SomeUsable ps

pub record IsGood (p : Config.Provider) : Type 0 where
  pub named : p.name ≢ ""
  pub typed : known_type p.kind ≡ true
  pub placed : p.base_url ≢ ""

abbrev pub Covers : List String → List String → Type 0
Covers ns chain = All (λ n. Elem n ns) chain

pub record IsSound (c : Config) : Type 0 where
  pub good : All IsGood c.providers
  pub distinct : Distinct (names c.providers)
  pub some_usable : SomeUsable c.providers
  pub default_known : Covers (names c.providers) c.routing.default_chain
  pub rules_known : All (λ (r : Config.Rule). Covers (names c.providers) r.chain) c.routing.rules
  pub webhooks_placed : All (λ (w : Config.Webhook). w.url ≢ "") c.webhooks

known-put :
    (m : GoMap String Bool) (k n : String)
    → known (put m k true) n ≡ (if k == n then true else known m n)
known-put m k n = ground (arith, get-put m k n true)

-- What the loop over the providers has established when it ends well.
pub record Accepted (ps : List Config.Provider) (seen : GoMap String Bool)
    (seen' : GoMap String Bool) (valid valid' : Bool) : Type 0 where
  pub good : All IsGood ps
  pub fresh : All (λ n. known seen n ≡ false) (names ps)
  pub distinct : Distinct (names ps)
  pub noted : (n : String) → known seen' n ≡ true → (known seen n ≡ true) ⊎ Elem n (names ps)
  pub kept : (n : String) → (known seen n ≡ true) ⊎ Elem n (names ps) → known seen' n ≡ true
  pub found : valid' ≡ true → (valid ≡ true) ⊎ SomeUsable ps
  pub found' : (valid ≡ true) ⊎ SomeUsable ps → valid' ≡ true

not-Elem :
    (k : String) (m : GoMap String Bool) (ns : List String)
    → All (λ n. known (put m k true) n ≡ false) ns
    → (¬ Elem k ns) × All (λ n. known m n ≡ false) ns
not-Elem k m [] h = (λ e. e, tt)
not-Elem k m (n ∷ ns) h =
    let (absent, rest) = not-Elem k m ns h.1 in
    let here : (if k == n then true else known m n) ≡ false = sym (known-put m k n) ∙ h.0 in
    (
      (λ e. elim e [ inl same ↦ ground (arith, eq_iff k n) | inr later ↦ absent later ]),
      (ground arith, rest),
    )

Accepted-cons :
    (p : Config.Provider) (ps : List Config.Provider) (seen seen' : GoMap String Bool)
    (valid valid' : Bool)
    → IsGood p
    → known seen p.name ≡ false
    → Accepted ps (put seen p.name true) seen' (if usable p then true else valid) valid'
    → Accepted (p ∷ ps) seen seen' valid valid'
Accepted-cons p ps seen seen' valid valid' good fresh a =
    let (absent, rest) = not-Elem p.name seen (names ps) a.fresh in
    record {
      good = (good, a.good);
      fresh = (fresh, rest);
      distinct = (absent, a.distinct);
      noted = λ n h. ground (arith, a.noted n h, known-put seen p.name n, eq_iff p.name n);
      kept = λ n h. a.kept n (put_first n h);
      found = λ h. ground (arith, a.found h);
      found' = λ h. a.found' (ground arith);
    }
  where
    put_first :
        (n : String)
        → (known seen n ≡ true) ⊎ Elem n (names (p ∷ ps))
        → (known (put seen p.name true) n ≡ true) ⊎ Elem n (names ps)
    put_first n (inl old) = inl (ground (arith, known-put seen p.name n))
    put_first n (inr (inl same)) = inl (ground (arith, known-put seen p.name n, eq_iff p.name n))
    put_first n (inr (inr later)) = inr later

check_providers-Accepted :
    (ps : List Config.Provider) (seen seen' : GoMap String Bool) (valid valid' : Bool)
    → check_providers ps seen valid ≡ fine (seen', valid')
    → Accepted ps seen seen' valid valid'
unfolding check_providers
check_providers-Accepted [] seen seen' valid valid' h = record {
  good = tt;
  fresh = tt;
  distinct = tt;
  noted = λ n k. ground arith;
  kept = λ n k. ground arith;
  found = λ k. ground arith;
  found' = λ k. ground arith;
}
check_providers-Accepted (p ∷ ps) seen seen' valid valid' h =
    Accepted-cons p ps seen seen' valid valid'
      (record {
        named = ground (arith, eq_iff p.name "");
        typed = ground arith;
        placed = ground (arith, eq_iff p.base_url "");
      })
      (ground arith)
      (check_providers-Accepted ps (put seen p.name true) seen' (if usable p then true else valid)
        valid' (ground arith))

-- No test of the loop refuses what is good, fresh and distinct.
check_providers-fine :
    (ps : List Config.Provider) (seen : GoMap String Bool) (valid : Bool)
    → All IsGood ps
    → All (λ n. known seen n ≡ false) (names ps)
    → Distinct (names ps)
    → (r : GoMap String Bool × Bool) × (check_providers ps seen valid ≡ fine r)
unfolding check_providers
check_providers-fine [] seen valid good fresh distinct = ((seen, valid), refl)
check_providers-fine (p ∷ ps) seen valid good fresh distinct =
    let still : All (λ n. known (put seen p.name true) n ≡ false) (names ps) =
      still_fresh p.name seen (names ps) distinct.0 fresh.1 in
    let (r, e) =
      check_providers-fine ps (put seen p.name true) (if usable p then true else valid) good.1 still
        distinct.1 in
    let g = good.0 in
    (
      r,
      ground
          (arith, eq_iff p.name "", eq_iff p.base_url "", fresh.0, e, g.typed, g.named, g.placed),
    )
  where
    still_fresh :
        (k : String) (m : GoMap String Bool) (ns : List String)
        → ¬ Elem k ns
        → All (λ n. known m n ≡ false) ns
        → All (λ n. known (put m k true) n ≡ false) ns
    still_fresh k m [] a f = tt
    still_fresh k m (n ∷ ns) a f = (
      ground (arith, known-put m k n, eq_iff k n, λ (e : k ≡ n). a (inl e)),
      still_fresh k m ns (λ e. a (inr e)) f.1,
    )

-- A chain passes exactly if each of its names is known.
check_chain-none :
    (m : GoMap String Bool) (what : String → Config.Error) (ns : List String)
    → (check_chain m what ns ≡ none) ↔ All (λ n. known m n ≡ true) ns
unfolding check_chain
check_chain-none m what [] = (λ h. tt, λ h. refl)
check_chain-none m what (n ∷ ns) =
    let (sound, complete) = check_chain-none m what ns in
    (
      λ h. elim (Bool-cases (known m n)) [
        | inl k ↦ (k, sound (ground (arith, k)))
        | inr k ↦ absurd (ground (arith, k))
      ],
      λ h. rw h.0 (complete h.1),
    )

check_rules-none :
    (m : GoMap String Bool) (i : ℕ) (rs : List Config.Rule)
    → (check_rules m i rs ≡ none)
      ↔ All (λ (r : Config.Rule). All (λ n. known m n ≡ true) r.chain) rs
unfolding check_rules
check_rules-none m i [] = (λ h. tt, λ h. refl)
check_rules-none m i (r ∷ rs) =
    let (sound, complete) = check_rules-none m (i + 1) rs in
    let (chain_sound, chain_complete) = check_chain-none m (Config.unknown_in_rule i) r.chain in
    (
      λ h. (chain_sound (ground arith), sound (ground arith)),
      λ h. rw (chain_complete h.0, check_rules) (complete h.1),
    )

check_webhooks-none :
    (i : ℕ) (ws : List Config.Webhook)
    → (check_webhooks i ws ≡ none) ↔ All (λ (w : Config.Webhook). w.url ≢ "") ws
unfolding check_webhooks
check_webhooks-none i [] = (λ h. tt, λ h. refl)
check_webhooks-none i (w ∷ ws) =
    let (sound, complete) = check_webhooks-none (i + 1) ws in
    (
      λ h. (ground (arith, eq_iff w.url ""), sound (ground arith)),
      λ h. ground (arith, eq_iff w.url "", complete h.1, h.0),
    )

All-imp {ℓ κ μ} :
    {A : Type ℓ} (P : A → Type κ) (Q : A → Type μ) (xs : List A)
    → ((a : A) → P a → Q a)
    → All P xs
    → All Q xs
All-imp P Q [] f h = tt
All-imp P Q (x ∷ xs) f h = (f x h.0, All-imp P Q xs f h.1)

-- The names that the loop has noted are those of the providers.
module _ (ps : List Config.Provider) (seen : GoMap String Bool) (valid : Bool)
    (a : Accepted ps [] seen false valid) where
  noted-Covers : (ns : List String) → All (λ n. known seen n ≡ true) ns → Covers (names ps) ns
  unfolding get
  noted-Covers ns =
      All-imp (λ n. known seen n ≡ true) (λ n. Elem n (names ps)) ns
        (λ n h. elim (a.noted n h) [ inl impossible ↦ absurd (cc) | inr e ↦ e ])

  Covers-noted : (ns : List String) → Covers (names ps) ns → All (λ n. known seen n ≡ true) ns
  Covers-noted ns =
      All-imp (λ n. Elem n (names ps)) (λ n. known seen n ≡ true) ns (λ n h. a.kept n (inr h))

rules-All :
    (P Q : String → Type 0) (rs : List Config.Rule)
    → ((ns : List String) → All P ns → All Q ns)
    → All (λ (r : Config.Rule). All P r.chain) rs
    → All (λ (r : Config.Rule). All Q r.chain) rs
rules-All P Q rs f =
    All-imp (λ (r : Config.Rule). All P r.chain) (λ (r : Config.Rule). All Q r.chain) rs
      (λ r. f r.chain)

All-unknown : (ns : List String) → All (λ n. known [] n ≡ false) ns
unfolding get
All-unknown [] = tt
All-unknown (n ∷ ns) = (refl, All-unknown ns)

validate-IsSound_forth :
    (c : Config) (r : Checked (GoMap String Bool × Bool))
    → check_providers c.providers [] false ≡ r
    → validate c ≡ none
    → IsSound c
unfolding validate check_routing
validate-IsSound_forth c (bad e) eq h = ground (arith, eq)
validate-IsSound_forth c (fine (seen, false)) eq h = ground (arith, eq)
validate-IsSound_forth c (fine (seen, true)) eq h =
    let a = check_providers-Accepted c.providers [] seen false true eq in
    let Known = λ (n : String). known seen n ≡ true in
    let passed : check_routing c seen true ≡ none = rw (eq, validate) at h in
    record {
      good = a.good;
      distinct = a.distinct;
      some_usable = elim (a.found refl) [ inl impossible ↦ absurd (cc) | inr u ↦ u ];
      default_known = noted-Covers c.providers seen true a c.routing.default_chain (
          (check_chain-none seen Config.unknown_in_default_chain c.routing.default_chain).0
            (ground arith));
      rules_known =
          rules-All Known (λ n. Elem n (names c.providers)) c.routing.rules
            (noted-Covers c.providers seen true a)
            ((check_rules-none seen 0 c.routing.rules).0 (ground arith));
      webhooks_placed = (check_webhooks-none 0 c.webhooks).0 (ground arith);
    }

validate-IsSound_back : (c : Config) → IsSound c → validate c ≡ none
unfolding validate check_routing
validate-IsSound_back c s =
    let ((seen, valid), e) =
      check_providers-fine c.providers [] false s.good (All-unknown (names c.providers))
        s.distinct in
    let a = check_providers-Accepted c.providers [] seen false valid e in
    let Known = λ (n : String). known seen n ≡ true in
    let usable : valid ≡ true = a.found' (inr s.some_usable) in
    let chain =
      (check_chain-none seen Config.unknown_in_default_chain c.routing.default_chain).1
        (Covers-noted c.providers seen valid a c.routing.default_chain s.default_known) in
    let rules = (check_rules-none seen 0 c.routing.rules).1 (
      rules-All (λ n. Elem n (names c.providers)) Known c.routing.rules
        (Covers-noted c.providers seen valid a) s.rules_known) in
    ground (arith, e, usable, chain, rules, (check_webhooks-none 0 c.webhooks).1 s.webhooks_placed)

-- A configuration passes `validate` exactly if each provider has a name, a known type and a base
-- URL, no two share a name, one of them can be used, the default chain and the rules' chains name
-- only providers, and each webhook has a URL.
pub validate-IsSound : (c : Config) → (validate c ≡ none) ↔ IsSound c
validate-IsSound c =
    (validate-IsSound_forth c (check_providers c.providers [] false) refl, validate-IsSound_back c)
