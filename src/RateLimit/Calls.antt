-- ===== src/RateLimit/Calls.antt =====
-- internal/ratelimit/ratelimit.go, calls of `Allow` and `AllowTokens` in any order on one limiter, which
-- keeps the buckets of both in one map.
use Prim.Native.String.{◌++◌ as str_append}
use claude_code_gateway.Prelude.{
  ℕ, ◌+◌, ◌≤◌, ◌≡◌, refl, ap, ◌∙◌, String, Bool, true, ◌||◌, List, [], ◌∷◌, none, arith,
  if◌then◌else◌, Bool-cases, Option-cases, inl, inr, ◌==◌, string_eq, nat_eq, length,
}
use claude_code_gateway.Prelude.GoMap.{get, put, get-put}
use claude_code_gateway.Prelude.Int.{ℤ, pos, ◌+ℤ◌, leb_ℤ}
use claude_code_gateway.Prelude.Floats.{Floats}
use claude_code_gateway.State.{Store}
use claude_code_gateway.RateLimit.{
  Bucket, Buckets, window, current, bucket_of, tokens_of, allow_local, allow_tokens_local, Limiter,
  allow, allow_tokens,
}

pub data Call : Type 0 where
  request : String → ℕ → Call
  tokens : String → ℕ → ℕ → Call

abbrev pub time_of : Call → ℕ
time_of (request key at) = at
time_of (tokens key est at) = at

-- What the calls weigh that are answered with yes.
abbrev pub weighed : ℕ → (Buckets → ℕ) → Buckets × Bool → ℕ
weighed n rest (bs, ok) = (if ok then n else 0) + rest bs

-- The limit on requests, and of each client the limit on tokens.
module _ (r : ℕ) (limits : String → ℕ) where
  abbrev pub local_answer : Call → Buckets → Buckets × Bool
  local_answer (request key at) bs =
      if leb_ℤ (pos r) (pos 0) then (bs, true) else allow_local (pos r) key at bs
  local_answer (tokens key est at) bs =
      if leb_ℤ (pos (limits key)) (pos 0) || leb_ℤ (pos est) (pos 0)
      then (bs, true)
      else allow_tokens_local key (pos est) (pos (limits key)) at bs

  abbrev pub local_weight : (Call → ℕ) → List Call → Buckets → ℕ
  local_weight weigh [] bs = 0
  local_weight weigh (c ∷ cs) bs = weighed (weigh c) (local_weight weigh cs) (local_answer c bs)

  module _ (F : Floats) {S : Type 0} (store : Store F S) where
    abbrev pub answer : Call → Limiter F store → Limiter F store × Bool
    answer (request key at) l = allow F store key at l
    answer (tokens key est at) l = allow_tokens F store key (pos est) (pos (limits key)) at l

    abbrev pub granted : ℕ → (Limiter F store → ℕ) → Limiter F store × Bool → ℕ
    granted n rest (l, ok) = (if ok then n else 0) + rest l

    -- The sum of the weights of the calls that are answered with yes.
    abbrev pub passed : (Call → ℕ) → List Call → Limiter F store → ℕ
    passed weigh [] l = 0
    passed weigh (c ∷ cs) l = granted (weigh c) (passed weigh cs) (answer c l)

    -- A limiter without a shared store.
    abbrev pub alone : Buckets → Limiter F store
    alone bs = record { rpm = pos r; buckets = bs; shared = none; prefix = "" }

    abbrev alone_after : Buckets × Bool → Limiter F store × Bool
    alone_after (bs, ok) = (alone bs, ok)

    answer-local : (c : Call) (bs : Buckets) → answer c (alone bs) ≡ alone_after (local_answer c bs)
    unfolding allow allow_tokens
    answer-local (request key at) bs = elim (Bool-cases (leb_ℤ (pos r) (pos 0))) [
      | inl free ↦ rw free refl
      | inr limited ↦ rw limited refl
    ]
    answer-local (tokens key est at) bs =
        elim (Bool-cases (leb_ℤ (pos (limits key)) (pos 0) || leb_ℤ (pos est) (pos 0))) [
          | inl free ↦ rw free refl
          | inr limited ↦ rw limited refl
        ]

    pub passed-local :
        (weigh : Call → ℕ) (cs : List Call) (bs : Buckets)
        → passed weigh cs (alone bs) ≡ local_weight weigh cs bs
    passed-local weigh [] bs = refl
    passed-local weigh (c ∷ cs) bs =
        ap (granted (weigh c) (passed weigh cs)) (answer-local c bs)
        ∙ ap (λ n. (if (local_answer c bs).1 then weigh c else 0) + n)
            (passed-local weigh cs (local_answer c bs).0)

pub raised : String → ℕ → Buckets → Bucket
raised key w bs = let b = tokens_of key w bs in record b { n = b.n +ℤ pos 1 }

pub raised-n :
    (key : String) (w : ℕ) (bs : Buckets) → (raised key w bs).n ≡ (tokens_of key w bs).n +ℤ pos 1
unfolding raised
raised-n key w bs = refl

pub raised-tok :
    (key : String) (w : ℕ) (bs : Buckets) → (raised key w bs).tok ≡ (tokens_of key w bs).tok
unfolding raised
raised-tok key w bs = refl

-- As long as there are no more than 4096 buckets, a request of a key adds one to its bucket.
pub allow_local-small :
    (rpm : ℤ) (key : String) (now : ℕ) (bs : Buckets)
    → length bs ≤ 4096
    → allow_local rpm key now bs
      ≡ (put bs key (raised key (window now) bs), leb_ℤ (raised key (window now) bs).n rpm)
unfolding allow_local bucket_of raised
allow_local-small rpm key now bs small = elim (Option-cases (current (get bs key) (window now))) [
  | inl fresh ↦ ground (arith, fresh, small)
  | inr (b, held) ↦ ground (arith, held)
]

pub tokens_of-win : (k : String) (w : ℕ) (bs : Buckets) → (tokens_of k w bs).win ≡ w
tokens_of-win k w bs = elim (Option-cases (get bs k)) [
  | inl missing ↦ ground (arith, missing)
  | inr (b, held) ↦ ground (arith, held)
]

pub raised-win : (key : String) (w : ℕ) (bs : Buckets) → (raised key w bs).win ≡ w
unfolding raised
raised-win key w bs = tokens_of-win key w bs

-- A bucket of this window that has been written is read back.
pub tokens_of-put :
    (i j : String) (w : ℕ) (b : Bucket) (bs : Buckets)
    → b.win ≡ w
    → tokens_of j w (put bs i b) ≡ (if i == j then b else tokens_of j w bs)
tokens_of-put i j w b bs this = elim (Bool-cases (i == j)) [
  | inl same ↦ ground (arith, same, get-put bs i j b, this)
  | inr other ↦ ground (arith, other, get-put bs i j b)
]

abbrev pub bucket_key : String → String
bucket_key key = str_append "tpm:" key

abbrev pub with_tok : Bucket → ℤ → Bucket
with_tok b n = record b { tok = n }
