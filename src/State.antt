-- ===== src/State.antt =====
-- internal/state/state.go: the contract of a shared store, and the store in memory. Its methods take
-- the lock twice, once to read and once to write: `read` and the write are steps of their own, and a
-- method that nothing comes between is their composition. Redis and Postgres are left out.
pub mod Windows
pub mod Bytes
mod Examples
use claude_code_gateway.Prelude.{
  ℕ, ◌+◌, ◌-◌, String, Bool, true, false, ◌&&◌, not, Option, none, some, ltb, nat_beq,
  if◌then◌else◌, string_eq, [],
}
use claude_code_gateway.Prelude.Floats.{Floats}
use claude_code_gateway.Prelude.GoMap.{GoMap, get, put, delete}
use claude_code_gateway.Prelude.Int.{ℤ, pos, ◌+ℤ◌, ltb_ℤ, pos_part, neg_part}

-- `now.Add(ttl)`
abbrev pub after : ℕ → ℤ → ℕ
after now ttl = (now + pos_part ttl) - neg_part ttl

module _ (F : Floats) where
  open F use {Float, from_int, to_int, add}

  -- The calls that limits and budgets make on a store, over the store's own states: each call is given
  -- the time, and `none` is an error.
  pub record Store (S : Type 0) : Type 0 where
    pub incr_window : ℕ → String → ℤ → ℤ → S → S × Option ℤ
    pub incr_float : ℕ → String → Float → S → S × Option Float
    pub get_float : ℕ → String → S → S × Option Float

  -- `expire` is 0 for the zero time.
  pub record MemEntry : Type 0 where
    pub content : Option String
    pub f : Float
    pub is_f : Bool
    pub expire : ℕ

  abbrev pub Memory : Type 0
  Memory = GoMap String MemEntry

  abbrev pub lapsed : ℕ → MemEntry → Bool
  lapsed now e = not (nat_beq e.expire 0) && ltb e.expire now

  -- `get`, which drops an entry that has lapsed
  unfoldable pub read : ℕ → String → Memory → Memory × Option MemEntry
  read now k m = elim (get m k) [
    | none ↦ (m, none)
    | some e ↦ if lapsed now e then (delete m k, none) else (m, some e)
  ]

  abbrev float_of : Option MemEntry → Float → Float
  float_of none d = d
  float_of (some e) d = if e.is_f then e.f else d

  abbrev pub number_of : Option MemEntry → Float
  number_of none = from_int (pos 0)
  number_of (some e) = e.f

  abbrev pub counter_of : Option MemEntry → ℤ
  counter_of none = pos 0
  counter_of (some e) = to_int e.f

  abbrev pub content_of : Option MemEntry → Option (Option String)
  content_of none = none
  content_of (some e) = some e.content

  -- The value that `IncrWindow` adds to.
  abbrev pub counted : Option MemEntry → ℤ
  counted none = pos 0
  counted (some e) = if e.is_f then to_int e.f else pos 0

  -- The write of `IncrWindow`.
  unfoldable pub write_window : ℕ → String → ℤ → ℤ → Memory → Memory
  write_window now k ttl nv m =
      put m k (record { content = none; f = from_int nv; is_f = true; expire = after now ttl })

  unfoldable pub incr_window : ℕ → String → ℤ → ℤ → Memory → Memory × Option ℤ
  unfolding read write_window
  incr_window now k ttl delta m =
      let (m', e) = read now k m in
      let nv = counted e +ℤ delta in (write_window now k ttl nv m', some nv)

  unfoldable pub get_counter : ℕ → String → Memory → Memory × ℤ
  unfolding read
  get_counter now k m = let (m', e) = read now k m in (m', counter_of e)

  unfoldable pub incr_float : ℕ → String → Float → Memory → Memory × Option Float
  unfolding read
  incr_float now k delta m =
      let (m', e) = read now k m in
      let nv = add (float_of e (from_int (pos 0))) delta in
      (put m' k (record { content = none; f = nv; is_f = true; expire = 0 }), some nv)

  unfoldable pub get_float : ℕ → String → Memory → Memory × Option Float
  unfolding read
  get_float now k m = let (m', e) = read now k m in (m', some (number_of e))

  unfoldable pub set_ttl_bytes : ℕ → String → String → ℤ → Memory → Memory
  set_ttl_bytes now k val ttl m = put m k (record {
    content = some val;
    f = from_int (pos 0);
    is_f = false;
    expire = if ltb_ℤ (pos 0) ttl then after now ttl else 0;
  })

  -- The bytes, where there is an entry: nil for an entry that holds a number.
  unfoldable pub get_bytes : ℕ → String → Memory → Memory × Option (Option String)
  unfolding read
  get_bytes now k m = let (m', e) = read now k m in (m', content_of e)

  unfoldable pub memory_store : Store Memory
  memory_store = record {
    incr_window = incr_window;
    incr_float = incr_float;
    get_float = get_float;
  }
