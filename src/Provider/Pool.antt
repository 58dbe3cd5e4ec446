-- ===== src/Provider/Pool.antt =====
-- internal/provider/pool.go: a provider's API keys, each with a cooldown, picked in rotation.
-- The mutex is held for the whole of each method, so a method is one step on the pool. The counters
-- (`int`, `int64`) are taken as unbounded: they would wrap after 2^63 calls.
pub mod Scan
pub mod Pick
pub mod FillFirst
pub mod Report
pub mod Bench
mod Examples
use Prim.Native.String.{len, slice, ◌++◌ as str_append}
use claude_code_gateway.Prelude.{
  ℕ, zero, suc, ◌+◌, ◌-◌, ◌*◌, ◌%◌, ◌^◌, String, Bool, ◌&&◌, List, [], ◌∷◌, map, Option, none, some,
  ltb, nat_beq, if◌then◌else◌, ◌==◌, string_eq, length, get_elem?, set,
}
use claude_code_gateway.Prelude.Int.{ℤ, pos, leb_ℤ}
use claude_code_gateway.Prelude.Time.{second, minute}

pub data FailKind : Type 0 where
  success soft_fail hard_fail : FailKind

pub record KeyState : Type 0 where
  pub value : String
  pub cool_until : ℕ
  pub soft_fails : ℕ
  pub picks : ℕ
  pub fails : ℕ
  pub successes : ℕ

pub record Pool : Type 0 where
  pub keys : List KeyState
  pub idx : ℕ
  pub weight : ℤ
  pub fill_first : Bool

abbrev pub fresh_key : String → KeyState
fresh_key k = record {
  value = k;
  cool_until = 0;
  soft_fails = 0;
  picks = 0;
  fails = 0;
  successes = 0;
}

-- The loop of `NewPool`: empty keys are left out.
unfoldable pub fresh_keys : List String → List KeyState
fresh_keys [] = []
fresh_keys (k ∷ ks) = let rest = fresh_keys ks in if k == "" then rest else fresh_key k ∷ rest

unfoldable pub new_pool : List String → Pool
unfolding fresh_keys
new_pool ks = record { keys = fresh_keys ks; idx = 0; weight = pos 0; fill_first = Bool.false }

pub set_weight : ℤ → Pool → Pool
set_weight w p = record p { weight = if leb_ℤ w (pos 0) then pos 1 else w }

pub set_fill_first : Bool → Pool → Pool
set_fill_first v p = record p { fill_first = v }

-- The first eight bytes of a key. (Keys are ASCII: a cut inside a character is not modelled.)
abbrev pub masked : String → String
masked v = if ltb 8 (len v) then str_append (slice v 0 8) "..." else v

pub key_hashes : Pool → List String
key_hashes p = map (λ k. masked k.value) p.keys

-- What `Pick` returns: `"", false`; a key and `true`; or a panic, an index out of range or a nil
-- dereference.
pub data Picked : Type 0 where
  no_keys : Picked
  key : String → Picked
  panic : Picked

-- How the first loop of `Pick` ends.
pub data Scanned : Type 0 where
  found : String → Scanned
  exhausted : Option KeyState → Scanned
  out_of_range : Scanned

-- `now.After(k.coolUntil)`
abbrev pub ready : ℕ → KeyState → Bool
ready now k = ltb k.cool_until now

-- `fallback == nil || k.coolUntil.Before(fallback.coolUntil)`
abbrev pub sooner : KeyState → Option KeyState → Bool
sooner k none = Bool.true
sooner k (some f) = ltb k.cool_until f.cool_until

abbrev pub counted : KeyState → KeyState
counted k = record k { picks = k.picks + 1 }

-- The first loop, with the rounds that are left.
unfoldable pub scan : ℕ → ℕ → ℕ → Pool → Option KeyState → Pool × Scanned
scan zero i now p fallback = (p, exhausted fallback)
scan (suc left) i now p fallback =
    let n = length p.keys in
    let at = (p.idx + i) % n in
    elim (get_elem? p.keys at) [
      | none ↦ (p, out_of_range)
      | some k ↦
          let p' = record p { keys = set p.keys at (counted k) } in
          let fallback' = if sooner k fallback then some (counted k) else fallback in
          let rest = scan left (i + 1) now p' fallback' in
          if ready now k
          then (record p' { idx = (p.idx + i + 1) % n }, found k.value)
          else if p.fill_first && nat_beq i 0 && ready now k
          then (p', exhausted fallback')
          else rest
    ]

-- The second loop, over the keys in order.
unfoldable pub first_ready : ℕ → List KeyState → Option String
first_ready now [] = none
first_ready now (k ∷ ks) = if ready now k then some k.value else first_ready now ks

-- `fallback.value`
abbrev pub deref : Option KeyState → Picked
deref none = panic
deref (some f) = key f.value

abbrev pub or_else : Option String → Picked → Picked
or_else none d = d
or_else (some v) d = key v

abbrev pub settle : ℕ → Pool × Scanned → Pool × Picked
settle now (p, found v) = (p, key v)
settle now (p, out_of_range) = (p, panic)
settle now (p, exhausted fallback) =
    (p, if p.fill_first then or_else (first_ready now p.keys) (deref fallback) else deref fallback)

unfoldable pub pick : ℕ → Pool → Pool × Picked
pick now p =
    if nat_beq (length p.keys) 0
    then (p, no_keys)
    else settle now (scan (length p.keys) 0 now p none)

-- `min` of the package
abbrev pub min_int : ℕ → ℕ → ℕ
min_int a b = if ltb a b then a else b

-- The backoff of a soft failure, `soft_fails` counting this one; `min_wait` is never negative.
unfoldable pub backoff : ℕ → ℕ → ℕ
backoff soft_fails min_wait =
    let b = 2 ^ min_int (soft_fails - 1) 5 * (10 * second) in
    let capped = if ltb (5 * minute) b then 5 * minute else b in
    if ltb capped min_wait then min_wait else capped

unfoldable pub penalise : ℕ → FailKind → ℕ → KeyState → KeyState
unfolding backoff
penalise now success min_wait k = record k {
  soft_fails = 0;
  cool_until = 0;
  successes = k.successes + 1;
}
penalise now soft_fail min_wait k =
    let until = now + backoff (k.soft_fails + 1) min_wait in
    record k {
      fails = k.fails + 1;
      soft_fails = k.soft_fails + 1;
      cool_until = if ltb k.cool_until until then until else k.cool_until;
    }
penalise now hard_fail min_wait k = record k { cool_until = now + 10 * minute }

-- The loop of `ReportHint`, which returns at the first key with the value.
unfoldable pub report_keys : ℕ → String → FailKind → ℕ → List KeyState → List KeyState
report_keys now v kind min_wait [] = []
report_keys now v kind min_wait (k ∷ ks) =
    if k.value == v
    then penalise now kind min_wait k ∷ ks
    else k ∷ report_keys now v kind min_wait ks

unfoldable pub report_hint : ℕ → String → FailKind → ℕ → Pool → Pool
report_hint now v kind min_wait p = record p { keys = report_keys now v kind min_wait p.keys }

unfoldable pub report : ℕ → String → FailKind → Pool → Pool
unfolding report_hint
report now v kind p = report_hint now v kind 0 p

pub record KeyStat : Type 0 where
  pub key : String
  pub picks : ℕ
  pub fails : ℕ
  pub successes : ℕ
  pub cool_until : ℕ

pub stats : Pool → List KeyStat
stats p =
    map
      (λ k. record {
        key = masked k.value;
        picks = k.picks;
        fails = k.fails;
        successes = k.successes;
        cool_until = k.cool_until;
      })
      p.keys
