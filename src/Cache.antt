-- ===== src/Cache.antt =====
-- internal/cache/cache.go: the response cache, with times to live and eviction of the oldest key,
-- and the index of the semantic cache. The mutex is held for the whole of each method. `Key`, a
-- SHA-256 digest, is left out.
pub mod Bounds
pub mod Reads
pub mod Semantic
pub mod Examples
use claude_code_gateway.Prelude.{
  ℕ, zero, suc, ◌+◌, ◌-◌, ◌*◌, String, Bool, List, [], ◌∷◌, ◌++◌, Option, none, some, ltb,
  if◌then◌else◌, ◌==◌, string_eq, length,
}
use claude_code_gateway.Prelude.GoMap.{GoMap, get, put, delete}
use claude_code_gateway.Prelude.Int.{ℤ, pos, negsuc, leb_ℤ, ltb_ℤ, sub_ℕ, pos_part}
use claude_code_gateway.Prelude.Time.{minute}

pub record Entry : Type 0 where
  pub body : String
  pub input : ℤ
  pub output : ℤ

pub record EntryMeta : Type 0 where
  pub e : Entry
  pub at : ℕ
  pub ttl : ℤ

-- `max` is positive, by `New`.
pub record Cache : Type 0 where
  pub ttl : ℤ
  pub max : ℕ
  pub m : GoMap String EntryMeta
  pub order : List String

pub new : ℤ → ℤ → Cache
new ttl max_entries = record {
  ttl = if leb_ℤ ttl (pos 0) then pos (10 * minute) else ttl;
  max = if leb_ℤ max_entries (pos 0) then 128 else pos_part max_entries;
  m = [];
  order = [];
}

-- The entry's own time to live, or the cache's.
abbrev pub lifetime : Cache → EntryMeta → ℤ
lifetime c meta = if leb_ℤ meta.ttl (pos 0) then c.ttl else meta.ttl

-- `time.Since(meta.at) > ttl`
abbrev pub expired : ℕ → Cache → EntryMeta → Bool
expired now c meta = ltb_ℤ (lifetime c meta) (sub_ℕ now meta.at)

pub lookup : ℕ → String → Cache → Cache × Option Entry
lookup now k c = elim (get c.m k) [
  | none ↦ (c, none)
  | some meta ↦
      if expired now c meta then (record c { m = delete c.m k }, none) else (c, some meta.e)
]

-- The loop that makes room.
pub evict : ℕ → List String → GoMap String EntryMeta → List String × GoMap String EntryMeta
evict max [] m = ([], m)
evict max (k ∷ ks) m =
    let rest = evict max ks (delete m k) in if ltb max (length (k ∷ ks)) then rest else (k ∷ ks, m)

-- `_, exists := c.m[k]`; a new key goes to the end of the order.
abbrev pub ordered : String → Cache → List String
ordered k c = elim (get c.m k) [ none ↦ c.order ++ k ∷ [] | some _ ↦ c.order ]

pub put_with_ttl : ℕ → String → Entry → ℤ → Cache → Cache
put_with_ttl now k e ttl c =
    let (order, m) =
      evict c.max (ordered k c) (put c.m k (record { e = e; at = now; ttl = ttl })) in
    record c { m = m; order = order }

-- `Put` is the same code, with the zero value for the entry's time to live.
pub put_entry : ℕ → String → Entry → Cache → Cache
unfolding put_with_ttl
put_entry now k e c = put_with_ttl now k e (pos 0) c

pub flush : Cache → Cache
flush c = record c { m = []; order = [] }

pub size : Cache → ℕ
size c = length c.m
