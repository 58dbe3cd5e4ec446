-- ===== src/Server/Budget/Ledger.antt =====
-- What a client is held to have spent, against its charges.
use text.Mathlib.TextEquality.{eq_iff}
use claude_code_gateway.Prelude.{
  ℕ, String, true, false, List, [], ◌∷◌, ◌++◌, Option, none, some, if◌then◌else◌, ◌==◌, ◌≡◌, refl,
  inl, inr, All, arith, Bool-cases, Option-cases, string_eq, ap, ◌∙◌,
}
use claude_code_gateway.Prelude.Floats.{Floats}
use claude_code_gateway.Prelude.GoMap.{get, get-put}
use claude_code_gateway.Server.Budget.{
  Calendar, period_key_now, ClientInfo, BudgetState, Budgets, limited, no_money, local_spent,
  spent_for, exceeded, state_in, add_local, charge,
}
use claude_code_gateway.State.{Store}

module _ (F : Floats) where
  open F use {Float, from_int, add, le}

  pub record Charge : Type 0 where
    pub token : String
    pub usd : Float
    pub at : ℕ

  module _ {S : Type 0} (cal : Calendar) (digest : String → String) (store : Store F S) where
    pub charge_all : List Charge → Budgets F S → Budgets F S
    charge_all [] b = b
    charge_all (c ∷ cs) b = charge_all cs (charge F cal digest store c.token c.usd c.at b)

  -- The sum of the charges of a token, from the left, without those that are not positive.
  pub billed : String → List Charge → Float → Float
  billed token [] sum = sum
  billed token (c ∷ cs) sum =
      billed token cs
        (if c.token == token then if le c.usd (no_money F) then sum else add sum c.usd else sum)

  -- The charges of a token fall into the period, or outside of it.
  abbrev pub Within : Calendar → String → String → String → List Charge → Type 0
  Within cal token period key cs =
      All (λ c. (c.token == token) ≡ true → (period_key_now cal period c.at == key) ≡ true) cs

  abbrev pub Outside : Calendar → String → String → String → List Charge → Type 0
  Outside cal token period key cs =
      All (λ c. (c.token == token) ≡ true → (period_key_now cal period c.at == key) ≡ false) cs

  local_spent-state_in :
      (o : Option (BudgetState F)) (period key : String) (usd : Float)
      → let st = state_in F period o in
        local_spent F (some (record st { spent = add st.spent usd })) key
        ≡ (if period == key then add (local_spent F o key) usd else no_money F)
  local_spent-state_in none period key usd = ground arith
  local_spent-state_in (some st) period key usd =
      ground (arith, eq_iff st.period_key period, eq_iff st.period_key key, eq_iff period key)

  module _ {S : Type 0} (cal : Calendar) (digest : String → String) (store : Store F S)
      (token : String) (ci : ClientInfo F) (key : String) where
    -- The state of the token, for what it spent in the period.
    Holds : Option (BudgetState F) → Float → Type 0
    Holds o sum = local_spent F o key ≡ sum

    -- The token's client, and a process without a shared store.
    pub record IsLocal (b : Budgets F S) : Type 0 where
      pub client : get b.info token ≡ some ci
      pub bounded : limited F (some ci) ≡ some ci
      pub alone : b.store ≡ none

    charge-local :
        (c : Charge) (b : Budgets F S) (ci' : ClientInfo F)
        → b.store ≡ none
        → limited F (get b.info c.token) ≡ some ci'
        → le c.usd (no_money F) ≡ false
        → (charge F cal digest store c.token c.usd c.at b).states
          ≡ add_local F c.token c.usd (period_key_now cal ci'.period c.at) b.states
    unfolding charge
    charge-local c b ci' alone found paid = ground arith

    charge-unlimited :
        (c : Charge) (b : Budgets F S)
        → limited F (get b.info c.token) ≡ none
        → charge F cal digest store c.token c.usd c.at b ≡ b
    unfolding charge
    charge-unlimited c b found = ground arith

    -- A charge that is not positive changes nothing.
    charge-free :
        (c : Charge) (b : Budgets F S)
        → le c.usd (no_money F) ≡ true
        → charge F cal digest store c.token c.usd c.at b ≡ b
    unfolding charge
    charge-free c b free = ground arith

    charge-IsLocal :
        (c : Charge) (b : Budgets F S)
        → IsLocal b
        → IsLocal (charge F cal digest store c.token c.usd c.at b)
    unfolding charge
    charge-IsLocal c b h = ground arith

    -- A charge to another token leaves the state alone.
    charge-other :
        (c : Charge) (b : Budgets F S)
        → b.store ≡ none
        → (c.token == token) ≡ false
        → get (charge F cal digest store c.token c.usd c.at b).states token ≡ get b.states token
    unfolding add_local
    charge-other c b h other = elim (Option-cases (limited F (get b.info c.token))) [
      | inl unlimited ↦ rw (charge-unlimited c b unlimited)
      | inr (ci', found) ↦ elim (Bool-cases (le c.usd (no_money F))) [
        | inl free ↦ rw (charge-free c b free)
        | inr paid ↦ rw (charge-local c b ci' h found paid, get-put, other)
      ]
    ]

    -- A charge of its own in the period adds to what it spent, one outside of it starts anew.
    charge-own :
        (c : Charge) (b : Budgets F S)
        → IsLocal b
        → (c.token == token) ≡ true
        → le c.usd (no_money F) ≡ false
        → local_spent F (get (charge F cal digest store c.token c.usd c.at b).states token) key ≡ (
            if period_key_now cal ci.period c.at == key
            then add (local_spent F (get b.states token) key) c.usd
            else no_money F)
    unfolding add_local
    charge-own c b h own paid =
        let e : c.token ≡ token = (string_eq.same_key_iff c.token token).0 own in
        let found : limited F (get b.info c.token) ≡ some ci =
          ap (λ t. limited F (get b.info t)) e ∙ ap (limited F) h.client ∙ h.bounded in
        rw (charge-local c b ci h.alone found paid, get-put, own)
          (local_spent-state_in (get b.states c.token) (period_key_now cal ci.period c.at) key c.usd
            ∙ rw e)

    -- Charges of the period are summed up.
    spent-charge_all :
        (cs : List Charge) (b : Budgets F S)
        → IsLocal b
        → Within cal token ci.period key cs
        → local_spent F (get (charge_all cal digest store cs b).states token) key
          ≡ billed token cs (local_spent F (get b.states token) key)
    unfolding charge_all billed
    spent-charge_all [] b h within = refl
    spent-charge_all (c ∷ cs) b h within =
        spent-charge_all cs (charge F cal digest store c.token c.usd c.at b) (charge-IsLocal c b h)
          within.1
        ∙ ap (billed token cs) (elim (Bool-cases (c.token == token)) [
          | inr other ↦ rw (charge-other c b h.alone other, other)
          | inl own ↦ elim (Bool-cases (le c.usd (no_money F))) [
            | inl free ↦ rw (charge-free c b free, own, free)
            | inr paid ↦ charge-own c b h own paid ∙ rw (within.0 own, own, paid)
          ]
        ])

    -- Charges outside of the period leave nothing in it.
    spent-charge_all-Outside :
        (cs : List Charge) (b : Budgets F S)
        → IsLocal b
        → Outside cal token ci.period key cs
        → local_spent F (get b.states token) key ≡ no_money F
        → local_spent F (get (charge_all cal digest store cs b).states token) key ≡ no_money F
    unfolding charge_all
    spent-charge_all-Outside [] b h outside fresh = fresh
    spent-charge_all-Outside (c ∷ cs) b h outside fresh =
        spent-charge_all-Outside cs (charge F cal digest store c.token c.usd c.at b)
          (charge-IsLocal c b h) outside.1
          (elim (Bool-cases (c.token == token)) [
            | inr other ↦ rw (charge-other c b h.alone other) fresh
            | inl own ↦ elim (Bool-cases (le c.usd (no_money F))) [
              | inl free ↦ rw (charge-free c b free) fresh
              | inr paid ↦ charge-own c b h own paid ∙ rw (outside.0 own)
            ]
          ])

    charge_all-IsLocal :
        (cs : List Charge) (b : Budgets F S)
        → IsLocal b
        → IsLocal (charge_all cal digest store cs b)
    unfolding charge_all
    charge_all-IsLocal [] b h = h
    charge_all-IsLocal (c ∷ cs) b h =
        charge_all-IsLocal cs (charge F cal digest store c.token c.usd c.at b)
          (charge-IsLocal c b h)

    charge_all-append :
        (cs ds : List Charge) (b : Budgets F S)
        → charge_all cal digest store (cs ++ ds) b
          ≡ charge_all cal digest store ds (charge_all cal digest store cs b)
    unfolding charge_all
    charge_all-append [] ds b = refl
    charge_all-append (c ∷ cs) ds b =
        charge_all-append cs ds (charge F cal digest store c.token c.usd c.at b)

    spent_for-local :
        (now : ℕ) (b : Budgets F S)
        → b.store ≡ none
        → period_key_now cal ci.period now ≡ key
        → spent_for F cal digest store token ci now b ≡ (b, local_spent F (get b.states token) key)
    unfolding spent_for
    spent_for-local now b alone e = ground (arith, ap (local_spent F (get b.states token)) e)

    -- What `exceeded` answers for a client with a limit, without a shared store.
    exceeded-local :
        (now : ℕ) (b : Budgets F S)
        → IsLocal b
        → period_key_now cal ci.period now ≡ key
        → let spent = local_spent F (get b.states token) key in
          exceeded F cal digest store token now b ≡ (b, ci, spent, le ci.limit spent)
    unfolding exceeded
    exceeded-local now b h e =
        rw (ap (limited F) h.client ∙ h.bounded, exceeded)
          (ap (λ r. (r.0, ci, r.1, le ci.limit r.1)) (spent_for-local now b h.alone e))

    -- For a client with a limit, where there is no shared store and the client has spent nothing in
    -- the period of `now`: after charges to any clients, of which first none of this client's and
    -- then all of this client's fall into that period, `exceeded` gives the sum of the latter that
    -- are positive, and tells whether the sum has reached the limit.
    pub exceeded-charge_all :
        (before cs : List Charge) (now : ℕ) (b : Budgets F S)
        → IsLocal b
        → period_key_now cal ci.period now ≡ key
        → local_spent F (get b.states token) key ≡ no_money F
        → Outside cal token ci.period key before
        → Within cal token ci.period key cs
        → let b' = charge_all cal digest store (before ++ cs) b in
          let spent = billed token cs (no_money F) in
          exceeded F cal digest store token now b' ≡ (b', ci, spent, le ci.limit spent)
    exceeded-charge_all before cs now b h e fresh outside within =
        let mid = charge_all cal digest store before b in
        let h' = charge_all-IsLocal before b h in
        let none_before = spent-charge_all-Outside before b h outside fresh in
        let total = spent-charge_all cs mid h' within ∙ ap (billed token cs) none_before in
        rw charge_all-append (
          exceeded-local now (charge_all cal digest store cs mid) (charge_all-IsLocal cs mid h') e
          ∙ ap (λ v. (charge_all cal digest store cs mid, ci, v, le ci.limit v)) total)
