-- ===== src/Server/Budget/Updating.antt =====
-- What a change of a client's budget does to what clients are held to have spent.
use claude_code_gateway.Prelude.{
  String, [], ◌∷◌, none, some, ◌≡◌, inl, inr, arith, ap, ◌∙◌, if◌then◌else◌, ◌==◌, string_eq,
  Bool-cases, Option-cases,
}
use text.Mathlib.TextEquality.{eq_iff}
use claude_code_gateway.Prelude.Floats.{Floats}
use claude_code_gateway.Prelude.GoMap.{GoMap, get}
use claude_code_gateway.Prelude.Text.{equal_fold}
use claude_code_gateway.Server.Budget.{ClientInfo, BudgetState, Budgets, client_of}
use claude_code_gateway.Server.Budget.Admin.{update_limit, forget, update_tokens, updated}

module _ (F : Floats) where
  open F use {Float}

  abbrev name_at : GoMap String (ClientInfo F) → String → String
  name_at m t = (client_of F (get m t)).name

  -- The clients keep their names.
  name_at-update_limit :
      (name : String) (limit : Float) (m m' : GoMap String (ClientInfo F)) (t : String)
      → update_limit F name limit m ≡ some m'
      → name_at m' t ≡ name_at m t
  unfolding update_limit get
  name_at-update_limit name limit [] m' t h = cc
  name_at-update_limit name limit ((j, ci) ∷ m) m' t h =
      elim (Bool-cases (equal_fold ci.name name)) [
        | inl same ↦ ground arith
        | inr other ↦ elim (Option-cases (update_limit F name limit m)) [
          | inl missing ↦ ground arith
          | inr (rest, found) ↦ ground (arith, name_at-update_limit name limit m rest t found)
        ]
      ]

  get-forget :
      (name : String) (info : GoMap String (ClientInfo F)) (m : GoMap String (BudgetState F))
      (t : String)
      → get (forget F name info m) t ≡ (if name_at info t == name then none else get m t)
  unfolding forget get
  get-forget name info [] t = ground arith
  get-forget name info ((j, st) ∷ m) t = ground (arith, eq_iff j t, get-forget name info m t)

  module _ {S : Type 0} where
    -- Where a budget was changed: of what the process itself has counted, the amounts of the clients of
    -- exactly that name are dropped, and those of the others stay. The shared store, where there is one,
    -- keeps the amounts of all.
    pub get-update_tokens :
        (name : String) (limit : Float) (b b' : Budgets F S)
        → update_tokens F name limit b ≡ (b', updated)
        → (t : String)
        → (get b'.states t ≡ (if name_at b.info t == name then none else get b.states t))
          × (b'.store ≡ b.store)
    unfolding update_tokens
    get-update_tokens name limit b b' h t = elim (Bool-cases (name == "")) [
      | inl empty ↦ absurd (ground arith)
      | inr given ↦ elim (Option-cases (update_limit F name limit b.info)) [
        | inl missing ↦ absurd (ground arith)
        | inr (info, found) ↦
            let e : b'.states ≡ forget F name info b.states = ground arith in
            (
              ap (λ m. get m t) e
                  ∙ get-forget name info b.states t
                  ∙ ap (λ n. if n == name then none else get b.states t)
                      (name_at-update_limit name limit b.info info t found),
              ground arith,
            )
      ]
    ]
