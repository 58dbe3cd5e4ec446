-- ===== src/Server/Gate/Meanings.antt =====
-- What the tests of internal/server/auth.go, internal/server/budgets.go and internal/server/freemode.go
-- ask of a request, in terms of the configuration.
use Prim.Native.String.{len, ◌++◌ as str_append}
use claude_code_gateway.Prelude.{
  ℕ, ltb, String, Bool, true, false, ◌&&◌, Option, none, some, List, [], ◌∷◌, In, ◌≡◌, refl, sym,
  ap, subst, ◌∙◌, ◌⊎◌, inl, inr, arith, if◌then◌else◌, ◌==◌, string_eq, Bool-cases,
}
use claude_code_gateway.Prelude.Floats.{Floats}
use claude_code_gateway.Prelude.GoMap.{GoMap, get}
use claude_code_gateway.Prelude.Text.{
  to_lower, trim_space, cut_prefix, append-cut_prefix, cut_star, equal_fold,
}
use claude_code_gateway.Config.{Routing}
use claude_code_gateway.Server.Budget.{
  Calendar, ClientInfo, Budgets, limited, exceeded, spent_for, is_match, match_any_pattern,
  allows_model, no_money,
}
use claude_code_gateway.Server.FreeMode.{match_wildcard, starred, among_free, enforce_free_only}
use claude_code_gateway.Server.Gate.{Incoming, bearer, extract_token, known, check_auth}
use claude_code_gateway.State.{Store}

-- The ways to carry a token.
abbrev pub IsBearer : Incoming → String → Type 0
IsBearer r t =
    (s : String) × ((cut_prefix r.authorization "Bearer " ≡ some s)
      ⊎ (cut_prefix r.authorization "bearer " ≡ some s))
    × (t ≡ trim_space s)

abbrev pub Carries : Incoming → String → Type 0
Carries r t = (t ≡ r.api_key) ⊎ IsBearer r t ⊎ (t ≡ r.query_token)

-- The sender has a token of the configuration, or none where that is allowed.
abbrev pub IsSender : GoMap String (Unit {0}) → Bool → Incoming → String → Type 0
IsSender tokens allow_anon r t =
    ((u : Unit {0}) × (get tokens t ≡ some u) × Carries r t)
    ⊎ ((t ≡ "anon") × (allow_anon ≡ true) × (r.api_key ≡ "") × (r.query_token ≡ ""))

bearer-IsBearer :
    (r : Incoming) (o p : Option String)
    → cut_prefix r.authorization "Bearer " ≡ o
    → cut_prefix r.authorization "bearer " ≡ p
    → (bearer o p == "") ≡ false
    → IsBearer r (bearer o p)
bearer-IsBearer r (some s) p a b h = (s, inl a, refl)
bearer-IsBearer r none (some s) a b h = (s, inr b, refl)
bearer-IsBearer r none none a b h = absurd (ground arith)

silent : true ≡ false → ⊥
silent h = ground arith

extract_token-Carries :
    (r : Incoming) → (extract_token r == "") ≡ false → Carries r (extract_token r)
unfolding extract_token
extract_token-Carries r h = elim (Bool-cases (r.api_key == "")) [
  | inr given ↦ rw given (inl refl)
  | inl no_key ↦ elim (Bool-cases (ltb 7 (len r.authorization))) [
    | inr short ↦ absurd (silent (rw (extract_token, no_key, short) at h))
    | inl long ↦
        rw (no_key, long)
          (inr (inl (bearer-IsBearer r _ _ refl refl (rw no_key at (rw long at h)))))
  ]
]

extract_token-api_key : (r : Incoming) → (extract_token r == "") ≡ true → r.api_key ≡ ""
unfolding extract_token
extract_token-api_key r h = elim (Bool-cases (r.api_key == "")) [
  | inl empty ↦ (string_eq.same_key_iff r.api_key "").0 empty
  | inr given ↦ absurd (ground (arith, given, h))
]

known-some :
    (o : Option (Unit {0})) (s t : String)
    → known o s ≡ some t
    → (u : Unit {0}) × (o ≡ some u) × (s ≡ t)
known-some none s t h = absurd (cc)
known-some (some u) s t h = (u, refl, cc)

chosen-IsSender :
    (tokens : GoMap String (Unit {0})) (allow_anon : Bool) (r : Incoming) (s t : String)
    → Carries r s
    → ((s == "") ≡ true → (r.api_key ≡ "") × (r.query_token ≡ ""))
    → (if s == "" && allow_anon then some "anon" else known (get tokens s) s) ≡ some t
    → IsSender tokens allow_anon r t
chosen-IsSender tokens allow_anon r s t carried silent h =
    elim (Bool-cases (s == "" && allow_anon)) [
      | inl anon ↦
          let (no_key, no_query) = silent (ground (arith, anon)) in
          inr (ground (arith, anon, h), ground (arith, anon), no_key, no_query)
      | inr named ↦
          let (u, found, same) = known-some (get tokens s) s t (rw named at h) in
          inl (u, subst (λ x. get tokens x ≡ some u) same found, subst (Carries r) same carried)
    ]

pub check_auth-IsSender :
    (tokens : GoMap String (Unit {0})) (allow_anon : Bool) (r : Incoming) (t : String)
    → check_auth tokens allow_anon r ≡ some t
    → IsSender tokens allow_anon r t
unfolding check_auth
check_auth-IsSender tokens allow_anon r t h = elim (Bool-cases (extract_token r == "")) [
  | inl nothing ↦
      chosen-IsSender tokens allow_anon r r.query_token t (inr (inr refl))
        (λ e. (extract_token-api_key r nothing, (string_eq.same_key_iff r.query_token "").0 e))
        (rw nothing at h)
  | inr given ↦
      chosen-IsSender tokens allow_anon r (extract_token r) t (extract_token-Carries r given)
        (λ e. absurd (ground (arith, given, e))) (rw given at h)
]

-- A model is free where a free model names it, with or without a star.
abbrev pub IsNamed : String → String → Type 0
IsNamed f model =
    let p = to_lower (trim_space f) in
    (match_wildcard p (to_lower model) ≡ true)
    ⊎ (starred (cut_star p) (to_lower model) ≡ true)
    ⊎ ((p == to_lower model) ≡ true)

abbrev pub IsFree : Routing → String → Type 0
IsFree r model = r.free_only ≡ true → (f : String) × In f r.free_models × IsNamed f model

among_free-In :
    (fs : List String) (model : String)
    → among_free fs (to_lower model) ≡ true
    → (f : String) × In f fs × IsNamed f model
unfolding among_free
among_free-In [] model h = absurd (ground arith)
among_free-In (f ∷ fs) model h =
    let p = to_lower (trim_space f) in
    let later : among_free fs (to_lower model) ≡ true
        → (g : String) × In g (f ∷ fs) × IsNamed g model =
      λ e. let (g, member, named) = among_free-In fs model e in (g, inr member, named) in
    elim (Bool-cases (p == "")) [
      | inl empty ↦ later (rw empty at h)
      | inr given ↦ elim (Bool-cases (match_wildcard p (to_lower model))) [
        | inl fits ↦ (f, inl refl, inl fits)
        | inr unlike ↦ elim (Bool-cases (starred (cut_star p) (to_lower model))) [
          | inl fits ↦ (f, inl refl, inr (inl fits))
          | inr no_star ↦ elim (Bool-cases (p == to_lower model)) [
            | inl fits ↦ (f, inl refl, inr (inr fits))
            | inr other ↦ later (rw given at (rw unlike at (rw no_star at (rw other at h))))
          ]
        ]
      ]
    ]

pub enforce_free_only-IsFree :
    (r : Routing) (model : String) → enforce_free_only r model ≡ "" → IsFree r model
unfolding enforce_free_only cut_prefix
enforce_free_only-IsFree r model h is_only = some_model r.free_models (rw is_only at h)
  where
    refuses : (t : String) → ¬ (str_append "model " t ≡ "")
    refuses t e =
        let none' : some t ≡ none =
          sym (append-cut_prefix "model " t) ∙ ap (λ u. cut_prefix u "model ") e in
        ground arith

    some_model :
        (fs : List String)
        → ◌≡◌ {A = String}
            (elim fs as (λ x. String) [
              | [] ↦ "free_only is enabled but no free_models are configured"
              | f ∷ more ↦
                  if among_free (f ∷ more) (to_lower model)
                  then ""
                  else str_append "model "
                      (str_append model " is not in free_models list (free_only mode is on)")
            ])
            ""
        → (f : String) × In f fs × IsNamed f model
    some_model [] e = absurd (omega (arith, ap len e))
    some_model (f ∷ more) e = elim (Bool-cases (among_free (f ∷ more) (to_lower model))) [
      | inl fits ↦ among_free-In (f ∷ more) model fits
      | inr other ↦ absurd (refuses _ (rw other at e))
    ]

-- The client's money, where it has a limit, is not spent.
module _ (F : Floats) {S : Type 0} (store : Store F S) (cal : Calendar)
    (digest : String → String) where
  open F use {lt, le}

  abbrev pub HasMoney : String → ℕ → Budgets F S → Type 0
  HasMoney token now b =
      (ci : ClientInfo F)
      → get b.info token ≡ some ci
      → lt ci.limit (no_money F) ≡ false
      → le ci.limit (spent_for F cal digest store token ci now b).1 ≡ false

  pub exceeded-HasMoney :
      (token : String) (now : ℕ) (b : Budgets F S)
      → (exceeded F cal digest store token now b).3 ≡ false
      → HasMoney token now b
  unfolding exceeded
  exceeded-HasMoney token now b h ci known' bounded =
      let lim : limited F (get b.info token) ≡ some ci = ap (limited F) known' ∙ rw bounded refl in
      rw (lim, exceeded) at h

-- The client may use any model, or one of its patterns fits the model.
abbrev pub Fits : (String → String → Option Bool) → String → String → Type 0
Fits glob p model =
    (is_match (glob (to_lower (trim_space p)) (to_lower model)) ≡ true)
    ⊎ (equal_fold p (to_lower model) ≡ true)

match_any_pattern-In :
    (glob : String → String → Option Bool) (ps : List String) (model : String)
    → match_any_pattern glob ps model ≡ true
    → (p : String) × In p ps × Fits glob p model
unfolding match_any_pattern
match_any_pattern-In glob [] model h = absurd (ground arith)
match_any_pattern-In glob (p ∷ ps) model h =
    elim (Bool-cases (is_match (glob (to_lower (trim_space p)) (to_lower model)))) [
      | inl fits ↦ (p, inl refl, inl fits)
      | inr unlike ↦ elim (Bool-cases (equal_fold p (to_lower model))) [
        | inl fits ↦ (p, inl refl, inr fits)
        | inr other ↦
            let (q, member, fits) =
              match_any_pattern-In glob ps model (ground (arith, unlike, other, h)) in
            (q, inr member, fits)
      ]
    ]

listed :
    (glob : String → String → Option Bool) (model : String) (ps : List String)
    → elim ps [ [] ↦ true | p ∷ more ↦ match_any_pattern glob (p ∷ more) model ] ≡ true
    → (ps ≡ []) ⊎ ((p : String) × In p ps × Fits glob p model)
listed glob model [] h = inl refl
listed glob model (p ∷ ps) h = inr (match_any_pattern-In glob (p ∷ ps) model h)

module _ (F : Floats) {S : Type 0} where
  abbrev pub MayUse : (String → String → Option Bool) → String → String → Budgets F S → Type 0
  MayUse glob token model b =
      (ci : ClientInfo F)
      → get b.info token ≡ some ci
      → (ci.allowed_models ≡ []) ⊎ ((p : String) × In p ci.allowed_models × Fits glob p model)

  pub allows_model-MayUse :
      (glob : String → String → Option Bool) (token model : String) (b : Budgets F S)
      → allows_model F glob token model b ≡ true
      → MayUse glob token model b
  unfolding allows_model
  allows_model-MayUse glob token model b h ci known' =
      listed glob model ci.allowed_models (rw known' at h)
