-- ===== src/Provider/Registry/Listing.antt =====
-- internal/provider/registry.go, `Catalog`: which models it lists.
use Prim.Native.String.{◌++◌ as str_append}
use text.Mathlib.TextEquality.{eq_iff}
use claude_code_gateway.Prelude.{
  ◌≡◌, ◌≢◌, refl, ap, String, Bool, true, false, not, ◌&&◌, ◌||◌, List, [], ◌∷◌, ◌++◌, inl, inr,
  Bool-cases, ◌⊎◌, if◌then◌else◌, arith, ◌==◌, string_eq, In, In-append, In-append_left,
  In-append_right, subst, Distinct, Distinct-snoc,
}
use claude_code_gateway.Prelude.GoMap.{GoMap, get, put, get-put}
use claude_code_gateway.Prelude.Text.{has_prefix}
use claude_code_gateway.Provider.Registry.{CatalogEntry, Registry}
use claude_code_gateway.Provider.Registry.Choice.{
  Listed, seen_id, add, add_models, list_providers, add_aliases, catalog, static_models,
  discovered_models,
}

abbrev pub ids : List CatalogEntry → List String
ids [] = []
ids (c ∷ cs) = c.id ∷ ids cs

ids-append : (xs ys : List CatalogEntry) → ids (xs ++ ys) ≡ ids xs ++ ids ys
ids-append [] ys = refl
ids-append (x ∷ xs) ys = ap (◌∷◌ x.id) (ids-append xs ys)

-- What the loop keeps: `seen` holds the identifiers listed, each once and none empty.
record IsListed (l : Listed) : Type 0 where
  distinct : Distinct (ids l.1)
  nonempty : ¬ In "" (ids l.1)
  noted : (id : String) → seen_id l.0 id ≡ true → In id (ids l.1)
  kept : (id : String) → In id (ids l.1) → seen_id l.0 id ≡ true

add_old : (id prov : String) (l : Listed) → (id == "" || seen_id l.0 id) ≡ true → add id prov l ≡ l
unfolding add
add_old id prov l h = ground arith

add_new :
    (id prov : String) (l : Listed)
    → (id == "" || seen_id l.0 id) ≡ false
    → add id prov l ≡ (put l.0 id true, l.1 ++ record { id = id; provider = prov } ∷ [])
unfolding add
add_new id prov l h = ground arith

seen_id-put :
    (m : GoMap String Bool) (k id : String)
    → seen_id (put m k true) id ≡ (if k == id then true else seen_id m id)
seen_id-put m k id = ground (arith, get-put m k id true)

-- The identifiers after one more entry.
module _ (out : List CatalogEntry) (id prov : String) where
  abbrev longer : List String
  longer = ids (out ++ record { id = id; provider = prov } ∷ [])

  longer-from : (j : String) → In j longer → In j (ids out) ⊎ (j ≡ id)
  longer-from j m = elim (In-append j (ids out) (id ∷ []) (rw ids-append at m)) [
    | inl before ↦ inl before
    | inr last ↦ elim last [ inl e ↦ inr e | inr impossible ↦ absurd impossible ]
  ]

  longer-old : (j : String) → In j (ids out) → In j longer
  longer-old j m = rw ids-append (In-append_left j (ids out) (id ∷ []) m)

  longer-new : In id longer
  longer-new = rw ids-append (In-append_right id (ids out) (id ∷ []) (inl refl))

  longer-Distinct : Distinct (ids out) → ¬ In id (ids out) → Distinct longer
  longer-Distinct d n = rw ids-append (Distinct-snoc (ids out) id d n)

add-IsListed : (id prov : String) (l : Listed) → IsListed l → IsListed (add id prov l)
add-IsListed id prov l h = elim (Bool-cases (id == "" || seen_id l.0 id)) [
  | inl old ↦ rw (add_old id prov l old) h
  | inr new ↦ rw (add_new id prov l new) (record {
    distinct = longer-Distinct l.1 id prov h.distinct (λ m. ground (arith, h.kept id m));
    nonempty = λ m. elim (longer-from l.1 id prov "" m) [
      | inl before ↦ h.nonempty before
      | inr e ↦ ground (arith, eq_iff id "")
    ];
    noted = λ j s. elim (Bool-cases (id == j)) [
      | inl same ↦
          subst (λ t. In t (longer l.1 id prov)) ((eq_iff id j).0 same) (longer-new l.1 id prov)
      | inr other ↦ longer-old l.1 id prov j (h.noted j (ground (arith, seen_id-put l.0 id j)))
    ];
    kept = λ j m. elim (longer-from l.1 id prov j m) [
      | inl before ↦ ground (arith, seen_id-put l.0 id j, h.kept j before)
      | inr e ↦ ground (arith, seen_id-put l.0 id j, eq_iff id j)
    ];
  })
]

-- Entries are only added.
add-keeps : (id prov j : String) (l : Listed) → In j (ids l.1) → In j (ids (add id prov l).1)
add-keeps id prov j l m = elim (Bool-cases (id == "" || seen_id l.0 id)) [
  | inl old ↦ rw (add_old id prov l old) m
  | inr new ↦ rw (add_new id prov l new) (longer-old l.1 id prov j m)
]

add_self : (id prov : String) (l : Listed) → IsListed l → id ≢ "" → In id (ids (add id prov l).1)
add_self id prov l h named = elim (Bool-cases (id == "" || seen_id l.0 id)) [
  | inl old ↦ rw (add_old id prov l old) (h.noted id (ground (arith, eq_iff id "")))
  | inr new ↦ rw (add_new id prov l new) (longer-new l.1 id prov)
]

-- What a step of the catalog does to the list: it keeps the invariant and every entry.
record Grows (l l' : Listed) : Type 0 where
  listed : IsListed l → IsListed l'
  keeps : (j : String) → In j (ids l.1) → In j (ids l'.1)

Grows-trans : (a b c : Listed) → Grows a b → Grows b c → Grows a c
Grows-trans a b c f g = record {
  listed = λ h. g.listed (f.listed h);
  keeps = λ j m. g.keeps j (f.keeps j m);
}

add-Grows : (id prov : String) (l : Listed) → Grows l (add id prov l)
add-Grows id prov l = record { listed = add-IsListed id prov l; keeps = λ j. add-keeps id prov j l }

add_models-Grows : (prov : String) (ms : List String) (l : Listed) → Grows l (add_models prov ms l)
unfolding add_models
add_models-Grows prov [] l = record { listed = λ h. h; keeps = λ j m. m }
add_models-Grows prov (m ∷ ms) l =
    Grows-trans _ _ _ (add-Grows m prov l) (add_models-Grows prov ms (add m prov l))

add_models-In :
    (prov m : String) (ms : List String) (l : Listed)
    → IsListed l
    → m ≢ ""
    → In m ms
    → In m (ids (add_models prov ms l).1)
unfolding add_models
add_models-In prov m [] l h named k = elim k [ ]
add_models-In prov m (x ∷ ms) l h named (inl e) =
    (add_models-Grows prov ms (add x prov l)).keeps m
      (subst (λ t. In m (ids (add t prov l).1)) e (add_self m prov l h named))
add_models-In prov m (x ∷ ms) l h named (inr k) =
    add_models-In prov m ms (add x prov l) (add-IsListed x prov l h) named k

list_providers-Grows :
    (r : Registry) (ns : List String) (l : Listed) → Grows l (list_providers r ns l)
unfolding list_providers
list_providers-Grows r [] l = record { listed = λ h. h; keeps = λ j m. m }
list_providers-Grows r (n ∷ ns) l =
    Grows-trans _ _ _
      (Grows-trans _ _ _ (add_models-Grows n (static_models r n) l)
        (add_models-Grows n (discovered_models r n) _))
      (list_providers-Grows r ns _)

add_aliases-Grows : (cs : List CatalogEntry) (l : Listed) → Grows l (add_aliases cs l)
unfolding add_aliases
add_aliases-Grows [] l = record { listed = λ h. h; keeps = λ j m. m }
add_aliases-Grows (c ∷ cs) l =
    elim (Bool-cases (not (has_prefix c.id "claude/") && not (has_prefix c.id "anthropic/"))) [
      | inl plain ↦ rw plain (
          Grows-trans _ _ _ (add-Grows (str_append "claude/" c.id) c.provider l)
            (add_aliases-Grows cs _))
      | inr marked ↦ rw marked (add_aliases-Grows cs l)
    ]

list_providers-In :
    (r : Registry) (n m : String) (ns : List String) (l : Listed)
    → IsListed l
    → m ≢ ""
    → In n ns
    → In m (static_models r n) ⊎ In m (discovered_models r n)
    → In m (ids (list_providers r ns l).1)
unfolding list_providers
list_providers-In r n m [] l h named k d = elim k [ ]
list_providers-In r n m (x ∷ ns) l h named (inl e) d =
    let l₁ = add_models x (static_models r x) l in
    let h₁ = (add_models-Grows x (static_models r x) l).listed h in
    (list_providers-Grows r ns (add_models x (discovered_models r x) l₁)).keeps m
      (elim (subst (λ t. In m (static_models r t) ⊎ In m (discovered_models r t)) e d) [
        | inl static ↦
            (add_models-Grows x (discovered_models r x) l₁).keeps m
              (add_models-In x m (static_models r x) l h named static)
        | inr found ↦ add_models-In x m (discovered_models r x) l₁ h₁ named found
      ])
list_providers-In r n m (x ∷ ns) l h named (inr k) d =
    list_providers-In r n m ns _
      ((add_models-Grows x (discovered_models r x) _).listed
        ((add_models-Grows x (static_models r x) l).listed h))
      named k d

none-IsListed : IsListed ([], [])
unfolding get
none-IsListed = record {
  distinct = tt;
  nonempty = λ h. h;
  noted = λ j s. ground arith;
  kept = λ j m. absurd m;
}

alias_step-Grows : (b : Bool) (l : Listed) → Grows l (if b then add_aliases l.1 l else l)
alias_step-Grows true l = add_aliases-Grows l.1 l
alias_step-Grows false l = record { listed = λ h. h; keeps = λ j m. m }

-- The catalog lists no identifier twice and none that is empty; and it lists every model, not empty,
-- that a provider of the registry has in its configuration or has been found to have.
pub catalog-ids :
    (r : Registry)
    → Distinct (ids (catalog r))
      × (¬ In "" (ids (catalog r)))
      × ((n m : String)
          → m ≢ ""
          → In n r.order
          → In m (static_models r n) ⊎ In m (discovered_models r n)
          → In m (ids (catalog r)))
unfolding catalog
catalog-ids r =
    let base = list_providers r r.order ([], []) in
    let g = alias_step-Grows r.alias base in
    let h = g.listed ((list_providers-Grows r r.order ([], [])).listed none-IsListed) in
    (
      h.distinct,
      h.nonempty,
      λ n m named k d. g.keeps m (list_providers-In r n m r.order ([], []) none-IsListed named k d),
    )
