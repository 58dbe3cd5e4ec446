-- ===== src/RateLimit/Refunds.antt =====
-- internal/ratelimit/ratelimit.go, `AllowTokens` with the store in memory of internal/state/state.go: what
-- a refused request leaves behind.
use Prim.Native.String.{◌++◌ as str_append}
use claude_code_gateway.Prelude.{
  ℕ, ◌≡◌, refl, ap, ◌∙◌, String, Bool, true, false, List, [], ◌∷◌, Option, some, none, All, map,
  arith, string_eq,
}
use claude_code_gateway.Prelude.Floats.{Floats}
use claude_code_gateway.Prelude.GoMap.{get, put, get-put_self}
use claude_code_gateway.Prelude.Int.{ℤ, pos, ◌+ℤ◌, ◌-ℤ◌, leb_ℤ}
use claude_code_gateway.Prelude.Time.{minute}
use claude_code_gateway.RateLimit.{Limiter, count_shared, refund, allow_tokens}
use claude_code_gateway.State.{
  MemEntry, Memory, lapsed, read, write_window, after, incr_window, incr_float, memory_store,
}

pub record Ask : Type 0 where
  pub est : ℤ
  pub at : ℕ

module _ (F : Floats) where
  -- The answers to requests of a key, one after the other.
  abbrev pub answers_of : List Ask → String → ℤ → Limiter F (memory_store F) → List Bool
  answers_of [] key tpm l = []
  answers_of (q ∷ qs) key tpm l =
      let (l', ok) = allow_tokens F (memory_store F) key q.est tpm q.at l in
      ok ∷ answers_of qs key tpm l'

  -- A request that does not fit beside the `n` tokens that are counted, and whose refund is exact.
  pub record IsTooMuch (n tpm : ℤ) (q : Ask) : Type 0 where
    pub some_tokens : leb_ℤ q.est (pos 0) ≡ false
    pub over : leb_ℤ (n +ℤ q.est) tpm ≡ false
    pub refunded : F.to_int (F.add (F.from_int (n +ℤ q.est)) (F.from_int (pos 0 -ℤ q.est))) ≡ n

  -- The key of the store has a number that is read as `n`, and does not lapse.
  pub record Stays (l : Limiter F (memory_store F)) (key : String) (n : ℤ) : Type 0 where
    pub memory : Memory F
    pub entry : MemEntry F
    pub shared : l.shared ≡ some memory
    pub found : get memory (str_append l.prefix (str_append ":tpm:" key)) ≡ some entry
    pub is_number : entry.is_f ≡ true
    pub for_ever : entry.expire ≡ 0
    pub value : F.to_int entry.f ≡ n

  read-live :
      (now : ℕ) (k : String) (m : Memory F) (e : MemEntry F)
      → get m k ≡ some e
      → lapsed F now e ≡ false
      → read F now k m ≡ (m, some e)
  unfolding read
  read-live now k m e found live = rw (found, read, live) refl

  -- What is written by the two calls on the store.
  raised : ℕ → ℤ → MemEntry F
  raised now n = record {
    content = none;
    f = F.from_int n;
    is_f = true;
    expire = after now (pos minute);
  }

  returned : ℤ → ℤ → MemEntry F
  returned n est = record {
    content = none;
    f = F.add (F.from_int n) (F.from_int (pos 0 -ℤ est));
    is_f = true;
    expire = 0;
  }

  incr_window-live :
      (now : ℕ) (k : String) (n est : ℤ) (m : Memory F) (e : MemEntry F)
      → get m k ≡ some e
      → e.is_f ≡ true
      → F.to_int e.f ≡ n
      → lapsed F now e ≡ false
      → incr_window F now k (pos minute) est m ≡ (put m k (raised now (n +ℤ est)), some (n +ℤ est))
  unfolding incr_window write_window raised
  incr_window-live now k n est m e found is_f value live =
      rw (read-live now k m e found live) (rw is_f (rw value refl))

  incr_float-raised :
      (now : ℕ) (k : String) (n est : ℤ) (m : Memory F)
      → incr_float F now k (F.from_int (pos 0 -ℤ est)) (put m k (raised now n))
        ≡ (put (put m k (raised now n)) k (returned n est), some (returned n est).f)
  unfolding incr_float raised returned
  incr_float-raised now k n est m =
      let live : lapsed F now (raised now n) ≡ false = ground arith in
      rw (read-live now k (put m k (raised now n)) (raised now n) (get-put_self m k _) live) refl

  module _ (key : String) (n tpm : ℤ) (limited : leb_ℤ tpm (pos 0) ≡ false) where
    refused :
        (q : Ask) (l : Limiter F (memory_store F)) (m : Memory F) (e : MemEntry F)
        → l.shared ≡ some m
        → get m (str_append l.prefix (str_append ":tpm:" key)) ≡ some e
        → e.is_f ≡ true
        → F.to_int e.f ≡ n
        → lapsed F q.at e ≡ false
        → IsTooMuch n tpm q
        → let (l', ok) = allow_tokens F (memory_store F) key q.est tpm q.at l in
          (ok ≡ false) × Stays l' key n
    unfolding allow_tokens memory_store returned
    refused q l m e shared found is_f value live much =
        let k = str_append l.prefix (str_append ":tpm:" key) in
        let store = memory_store F in
        let m₁ = put m k (raised q.at (n +ℤ q.est)) in
        let counts : count_shared F store q.at k q.est l.shared ≡ (some m₁, some (n +ℤ q.est)) =
          ap (count_shared F store q.at k q.est) shared
          ∙ ap (λ (r : Memory F × Option ℤ). (some r.0, r.1))
              (incr_window-live q.at k n q.est m e found is_f value live) in
        rw (counts, much.some_tokens, limited, much.over)
          (
            refl,
            record {
              memory = put m₁ k (returned (n +ℤ q.est) q.est);
              entry = returned (n +ℤ q.est) q.est;
              shared =
                  ap (λ (x : Option (Memory F) × Option ℤ). refund F store q.at k q.est x.0) counts
                  ∙ ap (λ (r : Memory F × Option F.Float). some r.0)
                      (incr_float-raised q.at k (n +ℤ q.est) q.est m);
              found = get-put_self m₁ k (returned (n +ℤ q.est) q.est);
              is_number = refl;
              for_ever = refl;
              value = much.refunded;
            },
          )

    all_refused :
        (qs : List Ask) (l : Limiter F (memory_store F))
        → Stays l key n
        → All (IsTooMuch n tpm) qs
        → answers_of qs key tpm l ≡ map (λ _. false) qs
    all_refused [] l s much = refl
    all_refused (q ∷ qs) l s much =
        let live : lapsed F q.at s.entry ≡ false = ground (arith, s.for_ever) in
        let (denied, stays) =
          refused q l s.memory s.entry s.shared s.found s.is_number s.value live much.0 in
        let l' = (allow_tokens F (memory_store F) key q.est tpm q.at l).0 in
        ap (λ b. b ∷ answers_of qs key tpm l') denied
        ∙ ap (λ bs. false ∷ bs) (all_refused qs l' stays much.1)

    pub answers_of-refused :
        (q : Ask) (qs : List Ask) (l : Limiter F (memory_store F)) (m : Memory F) (e : MemEntry F)
        → l.shared ≡ some m
        → get m (str_append l.prefix (str_append ":tpm:" key)) ≡ some e
        → e.is_f ≡ true
        → F.to_int e.f ≡ n
        → lapsed F q.at e ≡ false
        → All (IsTooMuch n tpm) (q ∷ qs)
        → answers_of (q ∷ qs) key tpm l ≡ map (λ _. false) (q ∷ qs)
    answers_of-refused q qs l m e shared found is_f value live much =
        let (denied, stays) = refused q l m e shared found is_f value live much.0 in
        let l' = (allow_tokens F (memory_store F) key q.est tpm q.at l).0 in
        ap (λ b. b ∷ answers_of qs key tpm l') denied
        ∙ ap (λ bs. false ∷ bs) (all_refused qs l' stays much.1)
