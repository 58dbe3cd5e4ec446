-- ===== src/Server/Budget/Examples.antt =====
-- Runs of internal/server/budget.go, with integers for money.
use claude_code_gateway.Prelude.{
  ℕ, ◌≡◌, refl, String, false, [], ◌∷◌, ◌++◌, none, string_eq, ltb, if◌then◌else◌, ◌==◌,
}
use claude_code_gateway.Prelude.GoMap.{get, put}
use claude_code_gateway.Prelude.Int.{pos, ◌+ℤ◌, leb_ℤ}
use claude_code_gateway.Prelude.Text.{to_lower, lower_from, equal_fold}
use claude_code_gateway.Cache.Examples.{integers}
use claude_code_gateway.Server.Budget.{
  Calendar, ClientInfo, Budgets, new_budgets, load_clients, charge, exceeded, spent_for, add_local,
  period_key_now, budget_key, client_of,
}
use claude_code_gateway.Server.Budget.Admin.{update_tokens, update_limit, forget}
use claude_code_gateway.Server.Budget.Updating.{get-update_tokens}
use claude_code_gateway.Server.Budget.Ledger.{Charge, charge_all, billed, exceeded-charge_all}
use claude_code_gateway.State.{Store}

program : Unit {0}
unfolding new_budgets load_clients charge exceeded spent_for add_local period_key_now budget_key get
    put to_lower lower_from equal_fold update_tokens update_limit forget ◌+ℤ◌
program = tt

abbrev calendar : Calendar
calendar = record {
  day = λ t. if ltb t 100 then "monday" else "tuesday";
  week = λ t. "week";
  month = λ t. "month";
}

abbrev no_store : Store integers (Unit {0})
no_store = record {
  incr_window = λ now k ttl d s. (s, none);
  incr_float = λ now k d s. (s, none);
  get_float = λ now k s. (s, none);
}

abbrev client : ClientInfo integers
client = record {
  name = "dima";
  limit = pos 50;
  period = "Daily";
  allowed_models = [];
  tpm = pos 0;
}

abbrev budgets : Budgets integers (Unit {0})
budgets = record { info = ("tok", client) ∷ []; states = []; store = none; runtime_changed = false }

abbrev paid : String → ℕ → ℕ → Charge integers
paid token usd at = record { token = token; usd = pos usd; at = at }

-- A client on the second day, after 40 on the first: 30 and 25 are above its limit.
exceeded-charge_all_example :
    let cs = paid "tok" 30 100 ∷ paid "other" 7 100 ∷ paid "tok" 25 120 ∷ [] in
    let b' = charge_all integers calendar (λ t. t) no_store (paid "tok" 40 50 ∷ [] ++ cs) budgets in
    let spent = billed integers "tok" cs (pos 0) in
    exceeded integers calendar (λ t. t) no_store "tok" 130 b'
    ≡ (b', client, spent, leb_ℤ (pos 50) spent)
unfolding period_key_now to_lower lower_from get
exceeded-charge_all_example =
    exceeded-charge_all integers calendar (λ t. t) no_store "tok" client "tuesday"
      (paid "tok" 40 50 ∷ []) (paid "tok" 30 100 ∷ paid "other" 7 100 ∷ paid "tok" 25 120 ∷ []) 130
      budgets (record { client = refl; bounded = refl; alone = refl }) refl refl ((λ e. refl), tt)
      ((λ e. refl), ((λ e. absurd (cc)), ((λ e. refl), tt)))

-- A budget of 0 in the configuration is no limit.
unlimited :
    (exceeded integers calendar
      (λ t. t)
      no_store
      "tok"
      5
      (new_budgets integers (
        record {
          name = "dima";
          token = "tok";
          budget_usd = pos 0;
          budget_period = "";
          allowed_models = [];
          tpm = pos 0;
        }
        ∷ []))).3
    ≡ false
unfolding program
unlimited = refl

-- A client that is updated by a name of another case keeps what it spent.
abbrev spent_all : Budgets integers (Unit {0})
spent_all = record budgets {
  states = ("tok", record { spent = pos 60; period_key = "monday" }) ∷ [];
}

other_case : (update_tokens integers "DIMA" (pos 100) spent_all).0.states ≡ spent_all.states
unfolding program
other_case = refl

get-update_tokens_example :
    (get (update_tokens integers "dima" (pos 100) spent_all).0.states "tok" ≡ (
      if (client_of integers (get spent_all.info "tok")).name == "dima"
      then none
      else get spent_all.states "tok"))
    × ((update_tokens integers "dima" (pos 100) spent_all).0.store ≡ spent_all.store)
unfolding program
get-update_tokens_example =
    get-update_tokens integers "dima" (pos 100) spent_all
      (update_tokens integers "dima" (pos 100) spent_all).0 refl "tok"
