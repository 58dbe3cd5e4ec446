-- ===== src/Server/Budget.antt =====
-- internal/server/budget.go: what each client may spend, and on which models. Money is a float. The
-- formats of days, weeks and months, `path.Match` and the start of a SHA-256 digest in hexadecimal
-- are parameters, and so is a shared store. The lock is held where an entry is changed.
pub mod Admin
pub mod Updating
pub mod Ledger
mod Examples
use Prim.Native.String.{◌++◌ as str_append}
use claude_code_gateway.Prelude.{
  ℕ, String, Bool, true, false, ◌||◌, List, [], ◌∷◌, Option, none, some, if◌then◌else◌, ◌==◌,
  string_eq,
}
use claude_code_gateway.Prelude.Floats.{Floats}
use claude_code_gateway.Prelude.GoMap.{GoMap, get, put}
use claude_code_gateway.Prelude.Int.{ℤ, pos, negsuc}
use claude_code_gateway.Prelude.Text.{to_lower, equal_fold, trim_space}
use claude_code_gateway.State.{Store}

-- `time.Time.Format` by the layouts of a day and a month, and the ISO week, of a moment.
pub record Calendar : Type 0 where
  pub day : ℕ → String
  pub week : ℕ → String
  pub month : ℕ → String

module _ (c : Calendar) where
  unfoldable pub period_key_now : String → ℕ → String
  period_key_now period now =
      let p = to_lower period in
      if p == "daily"
      then c.day now
      else if p == "weekly"
      then c.week now
      else if p == "monthly"
      then c.month now
      else "lifetime"

-- `glob` is `path.Match`, `none` where the pattern is malformed.
abbrev pub is_match : Option Bool → Bool
is_match none = false
is_match (some b) = b

unfoldable pub match_any_pattern : (String → String → Option Bool) → List String → String → Bool
match_any_pattern glob [] model = false
match_any_pattern glob (p ∷ ps) model =
    is_match (glob (to_lower (trim_space p)) (to_lower model))
    || equal_fold p (to_lower model)
    || match_any_pattern glob ps model

module _ (F : Floats) where
  open F use {Float, from_int, add, lt, le}

  abbrev pub no_money : Float
  no_money = from_int (pos 0)

  -- The fields of a client in the configuration.
  pub record Client : Type 0 where
    pub name : String
    pub token : String
    pub budget_usd : Float
    pub budget_period : String
    pub allowed_models : List String
    pub tpm : ℤ

  pub record ClientInfo : Type 0 where
    pub name : String
    pub limit : Float
    pub period : String
    pub allowed_models : List String
    pub tpm : ℤ

  pub record BudgetState : Type 0 where
    pub spent : Float
    pub period_key : String

  -- `budgets`, over the states of a store.
  pub record Budgets (S : Type 0) : Type 0 where
    pub info : GoMap String ClientInfo
    pub states : GoMap String BudgetState
    pub store : Option S
    pub runtime_changed : Bool

  -- `if limit <= 0 { limit = -1 }`
  abbrev pub limit_of : Float → Float
  limit_of budget = if le budget no_money then from_int (negsuc 0) else budget

  abbrev pub info_of : Client → ClientInfo
  info_of c = record {
    name = c.name;
    limit = limit_of c.budget_usd;
    period = c.budget_period;
    allowed_models = c.allowed_models;
    tpm = c.tpm;
  }

  -- The loop of `newBudgets`.
  unfoldable pub load_clients : List Client → GoMap String ClientInfo → GoMap String ClientInfo
  load_clients [] m = m
  load_clients (c ∷ cs) m = load_clients cs (if c.token == "" then m else put m c.token (info_of c))

  unfoldable pub new_budgets : {S : Type 0} → List Client → Budgets S
  unfolding load_clients
  new_budgets cs = record {
    info = load_clients cs [];
    states = [];
    store = none;
    runtime_changed = false;
  }

  -- The zero value of a client.
  abbrev pub no_client : ClientInfo
  no_client = record { name = ""; limit = no_money; period = ""; allowed_models = []; tpm = pos 0 }

  abbrev pub client_of : Option ClientInfo → ClientInfo
  client_of none = no_client
  client_of (some ci) = ci

  -- `ok && ci.Limit >= 0`
  abbrev pub limited : Option ClientInfo → Option ClientInfo
  limited none = none
  limited (some ci) = if lt ci.limit no_money then none else some ci

  abbrev pub allows : (String → String → Option Bool) → Option ClientInfo → String → Bool
  allows glob none model = true
  allows glob (some ci) model = elim ci.allowed_models [
    | [] ↦ true
    | p ∷ ps ↦ match_any_pattern glob (p ∷ ps) model
  ]

  abbrev pub local_spent : Option BudgetState → String → Float
  local_spent none key = no_money
  local_spent (some st) key = if st.period_key == key then st.spent else no_money

  abbrev pub state_in : String → Option BudgetState → BudgetState
  state_in key none = record { spent = no_money; period_key = key }
  state_in key (some st) =
      if st.period_key == key then st else record { spent = no_money; period_key = key }

  -- `add` by the states of the process.
  unfoldable pub add_local :
      String → Float → String → GoMap String BudgetState → GoMap String BudgetState
  add_local token usd key m =
      let st = state_in key (get m token) in put m token (record st { spent = add st.spent usd })

  module _ {S : Type 0} where
    unfoldable pub allows_model :
        (String → String → Option Bool) → String → String → Budgets S → Bool
    unfolding match_any_pattern
    allows_model glob token model b = allows glob (get b.info token) model

    module _ (cal : Calendar) (digest : String → String) (store : Store F S) where
      unfoldable pub budget_key : String → String → ℕ → String
      unfolding period_key_now
      budget_key token period now =
          str_append "budget:"
            (str_append (digest token) (str_append ":" (period_key_now cal period now)))

      -- What the store holds, where there is one and it answers.
      abbrev pub shared_spent : String → String → ℕ → Option S → Option S × Option Float
      shared_spent token period now none = (none, none)
      shared_spent token period now (some s) =
          let (s', v) = store.get_float now (budget_key token period now) s in (some s', v)

      unfoldable pub spent_for : String → ClientInfo → ℕ → Budgets S → Budgets S × Float
      unfolding budget_key period_key_now
      spent_for token ci now b =
          let (s, v) = shared_spent token ci.period now b.store in
          (
            record b { store = s },
            elim v [
              | some f ↦ f
              | none ↦ local_spent (get b.states token) (period_key_now cal ci.period now)
            ],
          )

      -- The client, what it spent and whether that is its limit.
      unfoldable pub exceeded : String → ℕ → Budgets S → Budgets S × ClientInfo × Float × Bool
      unfolding spent_for
      exceeded token now b = elim (limited (get b.info token)) [
        | none ↦ (b, client_of (get b.info token), no_money, false)
        | some ci ↦ let (b', spent) = spent_for token ci now b in (b', ci, spent, le ci.limit spent)
      ]

      abbrev pub shared_add : String → String → Float → ℕ → Option S → Option S × Option Float
      shared_add token period usd now none = (none, none)
      shared_add token period usd now (some s) =
          let (s', v) = store.incr_float now (budget_key token period now) usd s in (some s', v)

      abbrev pub add_limited : String → Float → ℕ → Budgets S → ClientInfo → Budgets S
      add_limited token usd now b ci =
          let (s, v) = shared_add token ci.period usd now b.store in
          elim v [
            | some f ↦ record b { store = s }
            | none ↦ record b {
              store = s;
              states = add_local token usd (period_key_now cal ci.period now) b.states;
            }
          ]

      unfoldable pub charge : String → Float → ℕ → Budgets S → Budgets S
      unfolding add_local budget_key period_key_now
      charge token usd now b = elim (limited (get b.info token)) [
        | none ↦ b
        | some ci ↦ if le usd no_money then b else add_limited token usd now b ci
      ]
