-- ===== src/RateLimit.antt =====
-- internal/ratelimit/ratelimit.go: the limits on requests and tokens in a minute, by a shared store or,
-- without one or where it fails, by buckets of its own. The lock is held while a bucket is changed. The
-- store is the interface of internal/state/state.go; what it does is a parameter.
pub mod Calls
pub mod Refunds
pub mod Requests
pub mod Tokens
mod Examples
use Prim.Native.String.{◌++◌ as str_append}
use claude_code_gateway.Prelude.{
  ℕ, ◌+◌, ◌/◌, String, Bool, true, false, not, ◌||◌, Option, none, some, ltb, nat_beq,
  if◌then◌else◌, ◌==◌, string_eq, [], length,
}
use claude_code_gateway.Prelude.Floats.{Floats}
use claude_code_gateway.Prelude.GoMap.{GoMap, get, put}
use claude_code_gateway.Prelude.Int.{ℤ, pos, ◌+ℤ◌, ◌-ℤ◌, leb_ℤ, ltb_ℤ, int_eq}
use claude_code_gateway.Prelude.Time.{minute}
use claude_code_gateway.Provider.Breaker.{unix}
use claude_code_gateway.State.{Store, incr_window, incr_float}

pub record Bucket : Type 0 where
  pub win : ℕ
  pub n : ℤ
  pub tok : ℤ

-- `now.Unix() / 60`
abbrev pub window : ℕ → ℕ
window now = unix now / 60

abbrev pub new_bucket : ℕ → Bucket
new_bucket w = record { win = w; n = pos 0; tok = pos 0 }

-- `ok` and `b.win == w`
abbrev pub current : Option Bucket → ℕ → Option Bucket
current none w = none
current (some b) w = if nat_beq b.win w then some b else none

abbrev pub Buckets : Type 0
Buckets = GoMap String Bucket

-- The buckets that `Allow` goes on with, and the bucket of the key.
unfoldable pub bucket_of : String → ℕ → Buckets → Buckets × Bucket
bucket_of key w bs = elim (current (get bs key) w) [
  | some b ↦ (bs, b)
  | none ↦ (if ltb 4096 (length bs) then [] else bs, new_bucket w)
]

-- `Allow` by the buckets.
unfoldable pub allow_local : ℤ → String → ℕ → Buckets → Buckets × Bool
unfolding bucket_of
allow_local rpm key now bs =
    let (bs', b) = bucket_of key (window now) bs in
    let n = b.n +ℤ pos 1 in (put bs' key (record b { n = n }), leb_ℤ n rpm)

-- The bucket of the key is the map's, or a new one that is put into the map at once.
abbrev pub tokens_of : String → ℕ → Buckets → Bucket
tokens_of bk w bs = elim (current (get bs bk) w) [ some b ↦ b | none ↦ new_bucket w ]

-- `AllowTokens` by the buckets.
unfoldable pub allow_tokens_local : String → ℤ → ℤ → ℕ → Buckets → Buckets × Bool
allow_tokens_local key est tpm now bs =
    let bk = str_append "tpm:" key in
    let b = tokens_of bk (window now) bs in
    if ltb_ℤ tpm (b.tok +ℤ est)
    then (put bs bk b, false)
    else (put bs bk (record b { tok = b.tok +ℤ est }), true)

module _ (F : Floats) {S : Type 0} (store : Store F S) where
  open F use {from_int}

  -- `shared` is the state of the store, where one is set.
  pub record Limiter : Type 0 where
    pub rpm : ℤ
    pub buckets : Buckets
    pub shared : Option S
    pub prefix : String

  unfoldable pub new : ℤ → Limiter
  new rpm = record { rpm = rpm; buckets = []; shared = none; prefix = "" }

  pub set_store : S → String → Limiter → Limiter
  set_store s prefix l = record l { shared = some s; prefix = str_append prefix ":rl" }

  -- A call of `IncrWindow` on the store: nothing where there is none or it fails.
  abbrev pub count_shared : ℕ → String → ℤ → Option S → Option S × Option ℤ
  count_shared now k d none = (none, none)
  count_shared now k d (some s) =
      let (s', r) = store.incr_window now k (pos minute) d s in (some s', r)

  abbrev pub refund : ℕ → String → ℤ → Option S → Option S
  refund now k est none = none
  refund now k est (some s) = some (store.incr_float now k (from_int (pos 0 -ℤ est)) s).0

  unfoldable pub allow : String → ℕ → Limiter → Limiter × Bool
  unfolding allow_local
  allow key now l =
      let (shared, r) =
        count_shared now (str_append l.prefix (str_append ":rpm:" key)) (pos 1) l.shared in
      let (bs, ok) = allow_local l.rpm key now l.buckets in
      if leb_ℤ l.rpm (pos 0) then (l, true) else elim r [
        | some n ↦ (record l { shared = shared }, leb_ℤ n l.rpm)
        | none ↦ (record l { shared = shared; buckets = bs }, ok)
      ]

  unfoldable pub allow_tokens : String → ℤ → ℤ → ℕ → Limiter → Limiter × Bool
  unfolding allow_tokens_local
  allow_tokens key est tpm now l =
      let k = str_append l.prefix (str_append ":tpm:" key) in
      let (shared, r) = count_shared now k est l.shared in
      let (bs, ok) = allow_tokens_local key est tpm now l.buckets in
      if leb_ℤ tpm (pos 0) || leb_ℤ est (pos 0) then (l, true) else elim r [
        | some n ↦
            if leb_ℤ n tpm
            then (record l { shared = shared }, true)
            else (record l { shared = refund now k est shared }, false)
        | none ↦ (record l { shared = shared; buckets = bs }, ok)
      ]
