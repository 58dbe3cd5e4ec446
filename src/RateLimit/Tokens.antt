-- ===== src/RateLimit/Tokens.antt =====
-- internal/ratelimit/ratelimit.go, `AllowTokens` without a shared store: how many tokens pass.
use claude_code_gateway.Prelude.{
  ℕ, ◌+◌, ◌≤◌, ◌<◌, ◌≡◌, refl, sym, ap, ◌∙◌, subst, String, Bool, true, false, ◌||◌, List, [], ◌∷◌,
  arith, if◌then◌else◌, Bool-cases, inl, inr, either_branch, ◌==◌, string_eq, length, All,
}
use text.Mathlib.TextEquality.{eq_iff}
use text.Mathlib.TextLemmas.{append_cancel_left}
use claude_code_gateway.Prelude.Floats.{Floats}
use claude_code_gateway.Prelude.GoMap.{get, put, length-put-le}
use claude_code_gateway.Prelude.Int.{ℤ, pos, ◌+ℤ◌, leb_ℤ, ltb_ℤ}
use claude_code_gateway.State.{Store}
use claude_code_gateway.RateLimit.{
  Bucket, Buckets, window, tokens_of, allow_local, allow_tokens_local, new,
}
use claude_code_gateway.RateLimit.Calls.{
  Call, request, tokens, time_of, local_answer, local_weight, passed, passed-local, raised,
  raised-tok, raised-win, allow_local-small, tokens_of-win, tokens_of-put, bucket_key, with_tok,
}

-- The tokens that a call asks for a key.
abbrev pub asked_for : String → Call → ℕ
asked_for k (request key at) = 0
asked_for k (tokens key est at) = if key == k then est else 0

-- The tokens that a bucket holds after another has been written, or the same with as many.
put-tok :
    (i j : String) (w : ℕ) (b : Bucket) (bs : Buckets)
    → b.win ≡ w
    → b.tok ≡ (tokens_of i w bs).tok
    → (tokens_of j w (put bs i b)).tok ≡ (tokens_of j w bs).tok
put-tok i j w b bs this same_tok = rw (tokens_of-put i j w b bs this) (elim (Bool-cases (i == j)) [
  | inl same ↦ rw same (same_tok ∙ ap (λ x. (tokens_of x w bs).tok) ((eq_iff i j).0 same))
  | inr other ↦ rw other refl
])

add_pos : (n : ℤ) (c e : ℕ) → n ≡ pos c → n +ℤ pos e ≡ pos (c + e)
unfolding ◌+ℤ◌
add_pos n c e h = ground (arith, h)

fits-le : (t m : ℕ) (n : ℤ) → ltb_ℤ (pos t) n ≡ false → n ≡ pos m → m ≤ t
fits-le t m n f h = ground (arith, f, h)

-- What a call does to the tokens of a key and to the number of buckets.
record Spent (t : ℕ) (k : String) (w m : ℕ) (c : Call) (bs : Buckets) (a : Buckets × Bool)
    : Type 0 where
  pub m' : ℕ
  pub held : (tokens_of (bucket_key k) w a.0).tok ≡ pos m'
  pub within : m' ≤ t
  pub room : length a.0 ≤ length bs + 1
  pub grows : (if a.1 then asked_for k c else 0) + m ≤ m'

module _ (r : ℕ) (limits : String → ℕ) (k : String) where
  other-Spent :
      (w m : ℕ) (c : Call) (bs : Buckets) (i : String) (b' : Bucket) (ok : Bool)
      → b'.win ≡ w
      → b'.tok ≡ (tokens_of i w bs).tok
      → (tokens_of (bucket_key k) w bs).tok ≡ pos m
      → m ≤ limits k
      → (if ok then asked_for k c else 0) ≡ 0
      → Spent (limits k) k w m c bs (put bs i b', ok)
  other-Spent w m c bs i b' ok this tok held within none_of_it = record {
    m' = m;
    held = put-tok i (bucket_key k) w b' bs this tok ∙ held;
    within = within;
    room = length-put-le bs i b';
    grows = omega (arith, none_of_it);
  }

  tokens-Spent :
      (w m : ℕ) (key : String) (est at : ℕ) (bs : Buckets)
      → window at ≡ w
      → (tokens_of (bucket_key k) w bs).tok ≡ pos m
      → m ≤ limits k
      → 0 < limits k
      → Spent (limits k) k w m (tokens key est at) bs (local_answer r limits (tokens key est at) bs)
  unfolding allow_tokens_local
  tokens-Spent w m key est at bs on held within limited =
      let c = tokens key est at in
      let bk = bucket_key key in
      let b = tokens_of bk (window at) bs in
      let this : b.win ≡ w = tokens_of-win bk (window at) bs ∙ on in
      let tok : b.tok ≡ (tokens_of bk w bs).tok = ap (λ v. (tokens_of bk v bs).tok) on in
      either_branch (Spent (limits k) k w m c bs)
        (leb_ℤ (pos (limits key)) (pos 0) || leb_ℤ (pos est) (pos 0))
        (λ free. record {
          m' = m;
          held = held;
          within = within;
          room = omega arith;
          grows = unasked key est m free limited;
        })
        (λ _.
          either_branch (Spent (limits k) k w m c bs) (ltb_ℤ (pos (limits key)) (b.tok +ℤ pos est))
            (λ _. other-Spent w m c bs bk b false this tok held within refl)
            (λ fits. elim (Bool-cases (key == k)) [
              | inl same ↦
                  let key : key ≡ k = (eq_iff key k).0 same in
                  let before : b.tok ≡ pos m =
                    tok ∙ ap (λ x. (tokens_of (bucket_key x) w bs).tok) key ∙ held in
                  let sum = add_pos b.tok m est before in
                  let b' = with_tok b (b.tok +ℤ pos est) in
                  record {
                    m' = m + est;
                    held =
                        rw (tokens_of-put bk (bucket_key k) w b' bs this)
                          (rw ((eq_iff bk (bucket_key k)).1 (ap bucket_key key)) sum);
                    within =
                        subst (λ x. m + est ≤ limits x) key
                          (fits-le _ (m + est) (b.tok +ℤ pos est) fits sum);
                    room = length-put-le bs bk b';
                    grows = rw same (omega arith);
                  }
              | inr other ↦
                  let b' = with_tok b (b.tok +ℤ pos est) in
                  record {
                    m' = m;
                    held =
                        rw (tokens_of-put bk (bucket_key k) w b' bs this)
                          (rw (apart key other) held);
                    within = within;
                    room = length-put-le bs bk b';
                    grows = rw other (omega arith);
                  }
            ]))
    where
      apart : (key : String) → (key == k) ≡ false → (bucket_key key == bucket_key k) ≡ false
      apart key other = ground (
        arith,
        other,
        eq_iff key k,
        eq_iff (bucket_key key) (bucket_key k),
        append_cancel_left "tpm:" key k,
      )

      unasked :
          (key : String) (est m : ℕ)
          → (leb_ℤ (pos (limits key)) (pos 0) || leb_ℤ (pos est) (pos 0)) ≡ true
          → 0 < limits k
          → (if key == k then est else 0) + m ≤ m
      unasked key est m free limited = elim (Bool-cases (key == k)) [
        | inl same ↦
            let limited' : 0 < limits key =
              subst (λ x. 0 < limits x) (sym ((eq_iff key k).0 same)) limited in
            ground (arith, same, free, limited')
        | inr other ↦ rw other (omega arith)
      ]

  request-Spent :
      (w m : ℕ) (key : String) (at : ℕ) (bs : Buckets)
      → window at ≡ w
      → length bs ≤ 4096
      → (tokens_of (bucket_key k) w bs).tok ≡ pos m
      → m ≤ limits k
      → Spent (limits k) k w m (request key at) bs (local_answer r limits (request key at) bs)
  request-Spent w m key at bs on small held within =
      either_branch (Spent (limits k) k w m (request key at) bs) (leb_ℤ (pos r) (pos 0))
        (λ _. record {
          m' = m;
          held = held;
          within = within;
          room = omega arith;
          grows = omega arith;
        })
        (λ _.
          let b = raised key w bs in
          let step : allow_local (pos r) key at bs ≡ (put bs key b, leb_ℤ b.n (pos r)) =
            subst
              (λ v.
                allow_local (pos r) key at bs
                ≡ (put bs key (raised key v bs), leb_ℤ (raised key v bs).n (pos r)))
              on (allow_local-small (pos r) key at bs small) in
          rw step (
            other-Spent w m (request key at) bs key b (leb_ℤ b.n (pos r)) (raised-win key w bs)
              (raised-tok key w bs) held within (ground arith)))

  call-Spent :
      (w m : ℕ) (c : Call) (bs : Buckets)
      → window (time_of c) ≡ w
      → length bs ≤ 4096
      → (tokens_of (bucket_key k) w bs).tok ≡ pos m
      → m ≤ limits k
      → 0 < limits k
      → Spent (limits k) k w m c bs (local_answer r limits c bs)
  call-Spent w m (request key at) bs on small held within limited =
      request-Spent w m key at bs on small held within
  call-Spent w m (tokens key est at) bs on small held within limited =
      tokens-Spent w m key est at bs on held within limited

  local_weight-le :
      (w : ℕ) (cs : List Call) (bs : Buckets) (m : ℕ)
      → All (λ c. window (time_of c) ≡ w) cs
      → length bs + length cs ≤ 4097
      → (tokens_of (bucket_key k) w bs).tok ≡ pos m
      → m ≤ limits k
      → 0 < limits k
      → local_weight r limits (asked_for k) cs bs + m ≤ limits k
  local_weight-le w [] bs m on room held within limited = omega (arith, within)
  local_weight-le w (c ∷ cs) bs m on room held within limited =
      let bs' = (local_answer r limits c bs).0 in
      let step = call-Spent w m c bs on.0 (omega (arith, room)) held within limited in
      let next =
        local_weight-le w cs bs' step.m' on.1 (omega (arith, room, step.room)) step.held step.within
          limited in
      omega (arith, next, step.grows)

-- The tokens of a key that pass in one window are never more than its limit, which is not 0. The calls
-- of `AllowTokens` for all keys, each with a limit of its own, and of `Allow`, whose limit is `r`, come
-- in any order; the limiter starts without buckets and has no shared store. (There must not be more
-- than 4097 calls in all: beyond 4096 buckets `Allow` drops the buckets of the tokens too.)
pub granted-le :
    (F : Floats) {S : Type 0} (store : Store F S) (r : ℕ) (limits : String → ℕ) (k : String) (w : ℕ)
    (cs : List Call)
    → All (λ c. window (time_of c) ≡ w) cs
    → length cs ≤ 4097
    → 0 < limits k
    → passed r limits F store (asked_for k) cs (new F store (pos r)) ≤ limits k
unfolding get new
granted-le F store r limits k w cs on room limited =
    let le =
      local_weight-le r limits k w cs [] 0 on (omega (arith, room)) refl (omega arith) limited in
    rw (passed-local r limits F store (asked_for k) cs []) (omega (arith, le))
