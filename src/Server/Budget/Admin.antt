-- ===== src/Server/Budget/Admin.antt =====
-- internal/server/budget.go: the changes that an administrator makes to budgets while the gateway runs.
use claude_code_gateway.Prelude.{
  String, true, List, [], ◌∷◌, Option, none, some, if◌then◌else◌, ◌==◌, string_eq,
}
use claude_code_gateway.Prelude.Floats.{Floats}
use claude_code_gateway.Prelude.GoMap.{GoMap, get, put}
use claude_code_gateway.Prelude.Int.{ℤ}
use claude_code_gateway.Prelude.Text.{equal_fold}
use claude_code_gateway.Server.Budget.{ClientInfo, BudgetState, Budgets, client_of, limit_of}

-- How a request to change a budget is answered.
pub data Updated : Type 0 where
  bad_request not_found updated : Updated

module _ (F : Floats) where
  open F use {Float}

  -- The loop of `updateLimitByName`, over the map in some order: the first client of that name.
  unfoldable pub update_limit :
      String → Float → GoMap String (ClientInfo F) → Option (GoMap String (ClientInfo F))
  update_limit name limit [] = none
  update_limit name limit ((t, ci) ∷ m) =
      let rest = update_limit name limit m in
      if equal_fold ci.name name
      then some ((t, record ci { limit = limit }) ∷ m)
      else elim rest [ none ↦ none | some m' ↦ some ((t, ci) ∷ m') ]

  -- The states that are kept: those of clients with another name.
  unfoldable pub forget :
      String
      → GoMap String (ClientInfo F)
      → GoMap String (BudgetState F)
      → GoMap String (BudgetState F)
  forget name info [] = []
  forget name info ((t, st) ∷ m) =
      let rest = forget name info m in
      if (client_of F (get info t)).name == name then rest else (t, st) ∷ rest

  module _ {S : Type 0} where
    -- `handleAdminTokensUpdate`, for a body that decodes.
    unfoldable pub update_tokens : String → Float → Budgets F S → Budgets F S × Updated
    unfolding update_limit forget
    update_tokens name limit b =
        if name == "" then (b, bad_request) else elim (update_limit name limit b.info) [
          | none ↦ (b, not_found)
          | some info ↦ (
            record b { info = info; states = forget name info b.states; runtime_changed = true },
            updated,
          )
        ]

    unfoldable pub add_client_runtime :
        String → String → Float → String → List String → ℤ → Budgets F S → Budgets F S
    add_client_runtime name token budget period models tpm b = record b {
      info = put b.info token (record {
        name = name;
        limit = limit_of F budget;
        period = period;
        allowed_models = models;
        tpm = tpm;
      });
    }
