-- ===== src/RateLimit/Requests.antt =====
-- internal/ratelimit/ratelimit.go, `Allow` without a shared store: how many requests pass.
use claude_code_gateway.Prelude.{
  ℕ, ◌+◌, ◌-◌, ◌≤◌, ◌≡◌, refl, ap, ◌∙◌, subst, String, Bool, true, false, ◌||◌, List, [], ◌∷◌,
  arith, if◌then◌else◌, leb, Bool-cases, inl, inr, either_branch, ◌==◌, string_eq, nat_eq, length,
  All,
}
use text.Mathlib.TextEquality.{eq_iff}
use claude_code_gateway.Prelude.Floats.{Floats}
use claude_code_gateway.Prelude.GoMap.{get, put, length-put-le}
use claude_code_gateway.Prelude.Int.{ℤ, pos, ◌+ℤ◌, leb_ℤ, ltb_ℤ}
use claude_code_gateway.State.{Store}
use claude_code_gateway.RateLimit.{
  Bucket, Buckets, window, tokens_of, allow_local, allow_tokens_local, new,
}
use claude_code_gateway.RateLimit.Calls.{
  Call, request, tokens, time_of, weighed, local_answer, local_weight, passed, passed-local, raised,
  raised-n, raised-win, allow_local-small, tokens_of-win, tokens_of-put, bucket_key, with_tok,
}

-- The requests of a key.
abbrev pub of_key : String → Call → ℕ
of_key k (request key at) = if key == k then 1 else 0
of_key k (tokens key est at) = 0

abbrev pub made : String → List Call → ℕ
made k [] = 0
made k (c ∷ cs) = of_key k c + made k cs

abbrev pub smaller : ℕ → ℕ → ℕ
smaller a b = if leb a b then a else b

next_pos : (n : ℤ) (m : ℕ) → n ≡ pos m → n +ℤ pos 1 ≡ pos (1 + m)
unfolding ◌+ℤ◌
next_pos n m h = ground (arith, h)

idle : (rest : Buckets → ℕ) (a : Buckets × Bool) → weighed 0 rest a ≡ rest a.0
idle rest (bs, true) = omega arith
idle rest (bs, false) = omega arith

-- A call for tokens leaves the counts of requests.
put-n :
    (i j : String) (w : ℕ) (b : Bucket) (bs : Buckets)
    → b.win ≡ w
    → b.n ≡ (tokens_of i w bs).n
    → (tokens_of j w (put bs i b)).n ≡ (tokens_of j w bs).n
put-n i j w b bs this same_n = rw (tokens_of-put i j w b bs this) (elim (Bool-cases (i == j)) [
  | inl same ↦ rw same (same_n ∙ ap (λ x. (tokens_of x w bs).n) ((eq_iff i j).0 same))
  | inr other ↦ rw other refl
])

-- What a call does to the count of a key and to the number of buckets, and when a request is allowed.
record Counted (r : ℕ) (k : String) (w m : ℕ) (c : Call) (bs : Buckets) (a : Buckets × Bool)
    : Type 0 where
  pub count : (tokens_of k w a.0).n ≡ pos (of_key k c + m)
  pub room : length a.0 ≤ length bs + 1
  pub allowed : (if a.1 then of_key k c else 0) ≡ (if leb (of_key k c + m) r then of_key k c else 0)

module _ (r : ℕ) (limits : String → ℕ) (k : String) where
  tokens-Counted :
      (w m : ℕ) (key : String) (est at : ℕ) (bs : Buckets)
      → window at ≡ w
      → (tokens_of k w bs).n ≡ pos m
      → Counted r k w m (tokens key est at) bs (local_answer r limits (tokens key est at) bs)
  unfolding allow_tokens_local
  tokens-Counted w m key est at bs on count =
      let b = tokens_of (bucket_key key) (window at) bs in
      let kept : (b' : Bucket) (ok : Bool)
          → b'.win ≡ w
          → b'.n ≡ b.n
          → Counted r k w m (tokens key est at) bs (put bs (bucket_key key) b', ok) =
        λ b' ok this n. record {
          count =
              put-n (bucket_key key) k w b' bs this
                (n ∙ ap (λ v. (tokens_of (bucket_key key) v bs).n) on)
              ∙ count
              ∙ ap pos (omega arith);
          room = length-put-le bs (bucket_key key) b';
          allowed = ground arith;
        } in
      let this : b.win ≡ w = tokens_of-win (bucket_key key) (window at) bs ∙ on in
      either_branch (Counted r k w m (tokens key est at) bs)
        (leb_ℤ (pos (limits key)) (pos 0) || leb_ℤ (pos est) (pos 0))
        (λ _. record {
          count = count ∙ ap pos (omega arith);
          room = omega arith;
          allowed = ground arith;
        })
        (λ _.
          either_branch (Counted r k w m (tokens key est at) bs)
            (ltb_ℤ (pos (limits key)) (b.tok +ℤ pos est)) (λ _. kept b false this refl)
            (λ _. kept (with_tok b (b.tok +ℤ pos est)) true this refl))

  request-Counted :
      (w m : ℕ) (key : String) (at : ℕ) (bs : Buckets)
      → window at ≡ w
      → length bs ≤ 4096
      → (tokens_of k w bs).n ≡ pos m
      → leb_ℤ (pos r) (pos 0) ≡ false
      → Counted r k w m (request key at) bs (local_answer r limits (request key at) bs)
  request-Counted w m key at bs on small count limited =
      let b = raised key w bs in
      let step : allow_local (pos r) key at bs ≡ (put bs key b, leb_ℤ b.n (pos r)) =
        subst
          (λ v.
            allow_local (pos r) key at bs
            ≡ (put bs key (raised key v bs), leb_ℤ (raised key v bs).n (pos r)))
          on (allow_local-small (pos r) key at bs small) in
      let after = tokens_of-put key k w b bs (raised-win key w bs) in
      rw (limited, step)
        (elim (Bool-cases (key == k)) [
          | inl same ↦
              let n : b.n ≡ pos (1 + m) =
                raised-n key w bs
                ∙ next_pos (tokens_of key w bs).n m
                    (ap (λ x. (tokens_of x w bs).n) ((eq_iff key k).0 same) ∙ count) in
              record {
                count = ground (arith, after, same, n);
                room = length-put-le bs key b;
                allowed = ground (arith, same, n);
              }
          | inr other ↦ record {
            count = ground (arith, after, other, count);
            room = length-put-le bs key b;
            allowed = ground (arith, other);
          }
        ])

  call-Counted :
      (w m : ℕ) (c : Call) (bs : Buckets)
      → window (time_of c) ≡ w
      → length bs ≤ 4096
      → (tokens_of k w bs).n ≡ pos m
      → leb_ℤ (pos r) (pos 0) ≡ false
      → Counted r k w m c bs (local_answer r limits c bs)
  call-Counted w m (request key at) bs on small count limited =
      request-Counted w m key at bs on small count limited
  call-Counted w m (tokens key est at) bs on small count limited =
      tokens-Counted w m key est at bs on count

  of_key-le : (c : Call) → of_key k c ≤ 1
  of_key-le (request key at) = ground arith
  of_key-le (tokens key est at) = omega arith

  local_weight-smaller :
      (w : ℕ) (cs : List Call) (bs : Buckets) (m : ℕ)
      → All (λ c. window (time_of c) ≡ w) cs
      → length bs + length cs ≤ 4097
      → (tokens_of k w bs).n ≡ pos m
      → leb_ℤ (pos r) (pos 0) ≡ false
      → local_weight r limits (of_key k) cs bs ≡ smaller (made k cs) (r - m)
  local_weight-smaller w [] bs m on room count limited = ground arith
  local_weight-smaller w (c ∷ cs) bs m on room count limited =
      let (bs', ok) = local_answer r limits c bs in
      let counted = call-Counted w m c bs on.0 (omega (arith, room)) count limited in
      let next =
        local_weight-smaller w cs bs' (of_key k c + m) on.1 (omega (arith, room, counted.room))
          counted.count limited in
      rw counted.allowed (rw next (summed (of_key k c) (made k cs) m (of_key-le c)))
    where
      summed :
          (x M m : ℕ)
          → x ≤ 1
          → (if leb (x + m) r then x else 0) + smaller M (r - (x + m)) ≡ smaller (x + M) (r - m)
      summed x M m h = ground (arith, h)

  unlimited :
      (cs : List Call) (bs : Buckets)
      → leb_ℤ (pos r) (pos 0) ≡ true
      → local_weight r limits (of_key k) cs bs ≡ made k cs
  unlimited [] bs free = refl
  unlimited (request key at ∷ cs) bs free =
      rw free (ap (λ n. (if key == k then 1 else 0) + n) (unlimited cs bs free))
  unlimited (tokens key est at ∷ cs) bs free =
      let a = local_answer r limits (tokens key est at) bs in
      idle (local_weight r limits (of_key k) cs) a ∙ unlimited cs a.0 free ∙ omega arith

-- Of the requests of a key in one window, as many pass as are made, but no more than the limit `r`
-- where it is not 0; with a limit of 0 all pass. The calls of `Allow` for all keys and of
-- `AllowTokens`, for any tokens and limits, come in any order; the limiter starts without buckets and
-- has no shared store. (There must not be more than 4097 calls in all: beyond 4096 buckets the limiter
-- starts anew.)
pub passed-made :
    (F : Floats) {S : Type 0} (store : Store F S) (r : ℕ) (limits : String → ℕ) (k : String) (w : ℕ)
    (cs : List Call)
    → All (λ c. window (time_of c) ≡ w) cs
    → length cs ≤ 4097
    → passed r limits F store (of_key k) cs (new F store (pos r))
      ≡ (if r == 0 then made k cs else smaller (made k cs) r)
unfolding get new
passed-made F store r limits k w cs on room =
    passed-local r limits F store (of_key k) cs [] ∙ elim (Bool-cases (leb_ℤ (pos r) (pos 0))) [
      | inl free ↦ ground (arith, free, unlimited r limits k cs [] free)
      | inr limited ↦ ground (
        arith,
        limited,
        local_weight-smaller r limits k w cs [] 0 on (omega (arith, room)) refl limited,
      )
    ]
