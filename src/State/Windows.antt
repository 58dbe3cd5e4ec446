-- ===== src/State/Windows.antt =====
-- internal/state/state.go: the counters of the store in memory.
use claude_code_gateway.Prelude.{
  ℕ, ◌≤◌, ◌<◌, ◌≡◌, refl, String, true, false, List, [], ◌∷◌, Option, none, some, arith, string_eq,
}
use claude_code_gateway.Prelude.Floats.{Floats}
use claude_code_gateway.Prelude.GoMap.{get, get-put_self}
use claude_code_gateway.Prelude.Int.{ℤ, pos, ◌+ℤ◌}
use claude_code_gateway.State.{
  MemEntry, Memory, after, lapsed, read, counted, write_window, incr_window, get_counter,
}

-- A call of `IncrWindow`.
pub record Call : Type 0 where
  pub at : ℕ
  pub ttl : ℤ
  pub delta : ℤ

-- Each call comes while the entry that the call before has written lasts.
abbrev pub IsSteady : ℕ → List Call → Type 0
IsSteady expire [] = Unit
IsSteady expire (c ∷ cs) = (c.at ≤ expire) × (0 < after c.at c.ttl) × IsSteady (after c.at c.ttl) cs

abbrev pub total : ℤ → List Call → ℤ
total n [] = n
total n (c ∷ cs) = total (n +ℤ c.delta) cs

module _ (F : Floats) where
  -- An int64 that a float64 holds exactly, as it does up to 2^53.
  abbrev pub IsExact : ℤ → Type 0
  IsExact n = F.to_int (F.from_int n) ≡ n

  -- So are all the sums of the calls.
  abbrev pub AreExact : ℤ → List Call → Type 0
  AreExact n [] = Unit
  AreExact n (c ∷ cs) = IsExact (n +ℤ c.delta) × AreExact (n +ℤ c.delta) cs

  unfoldable pub incr_all : String → List Call → Memory F → Memory F
  unfolding incr_window
  incr_all k [] m = m
  incr_all k (c ∷ cs) m = incr_all k cs (incr_window F c.at k c.ttl c.delta m).0

  record Counts (k : String) (m : Memory F) (n : ℤ) (expire : ℕ) : Type 0 where
    entry : MemEntry F
    found : get m k ≡ some entry
    is_float : entry.is_f ≡ true
    value : F.to_int entry.f ≡ n
    expires : entry.expire ≡ expire

  read-live :
      (now : ℕ) (k : String) (m : Memory F) (e : MemEntry F)
      → get m k ≡ some e
      → now ≤ e.expire
      → read F now k m ≡ (m, some e)
  unfolding read
  read-live now k m e found live =
      let on : lapsed F now e ≡ false = ground (arith, live) in rw (found, read, on) refl

  incr_window-found :
      (now : ℕ) (k : String) (ttl delta : ℤ) (m m' : Memory F) (e : Option (MemEntry F)) (n : ℤ)
      → read F now k m ≡ (m', e)
      → counted F e ≡ n
      → IsExact (n +ℤ delta)
      → Counts k (incr_window F now k ttl delta m).0 (n +ℤ delta) (after now ttl)
  unfolding incr_window write_window
  incr_window-found now k ttl delta m m' e n r c exact = record {
    entry = record {
      content = none;
      f = F.from_int (n +ℤ delta);
      is_f = true;
      expire = after now ttl;
    };
    found = rw (r, c) (get-put_self m' k _);
    is_float = refl;
    value = exact;
    expires = refl;
  }

  incr_window-Counts :
      (now : ℕ) (k : String) (ttl delta : ℤ) (m : Memory F) (n : ℤ) (expire : ℕ)
      → Counts k m n expire
      → now ≤ expire
      → IsExact (n +ℤ delta)
      → Counts k (incr_window F now k ttl delta m).0 (n +ℤ delta) (after now ttl)
  incr_window-Counts now k ttl delta m n expire c live exact =
      incr_window-found now k ttl delta m m (some c.entry) n
        (read-live now k m c.entry c.found (omega (arith, live, c.expires)))
        (ground (arith, c.is_float, c.value)) exact

  abbrev pub last_expire : ℕ → List Call → ℕ
  last_expire expire [] = expire
  last_expire expire (c ∷ cs) = last_expire (after c.at c.ttl) cs

  incr_all-Counts :
      (k : String) (cs : List Call) (m : Memory F) (n : ℤ) (expire : ℕ)
      → Counts k m n expire
      → IsSteady expire cs
      → AreExact n cs
      → Counts k (incr_all k cs m) (total n cs) (last_expire expire cs)
  unfolding incr_all
  incr_all-Counts k [] m n expire c s x = c
  incr_all-Counts k (a ∷ cs) m n expire c s x =
      incr_all-Counts k cs _ _ _ (incr_window-Counts a.at k a.ttl a.delta m n expire c s.0 x.0) s.2
        x.1

  get_counter-Counts :
      (now : ℕ) (k : String) (m : Memory F) (n : ℤ) (expire : ℕ)
      → Counts k m n expire
      → now ≤ expire
      → (get_counter F now k m).1 ≡ n
  unfolding get_counter
  get_counter-Counts now k m n expire c live =
      rw (read-live now k m c.entry c.found (omega (arith, live, c.expires))) c.value

  -- A counter that no entry holds at first, and that is raised again and again before its time to live
  -- has passed since the last call, holds the sum of all calls, as long as a float holds the sums exactly
  -- (a float64 does up to 2^53): each call starts the time to live anew, so that such a counter is not
  -- reset, however long the calls go on.
  pub incr_all-get_counter :
      (k : String) (m : Memory F) (c : Call) (cs : List Call) (now : ℕ)
      → get m k ≡ none
      → IsSteady (after c.at c.ttl) cs
      → now ≤ last_expire (after c.at c.ttl) cs
      → AreExact (pos 0) (c ∷ cs)
      → (get_counter F now k (incr_all k (c ∷ cs) m)).1 ≡ total (pos 0) (c ∷ cs)
  unfolding incr_all read
  incr_all-get_counter k m c cs now missing steady live exact =
      get_counter-Counts now k _ _ _
        (incr_all-Counts k cs _ _ _
          (incr_window-found c.at k c.ttl c.delta m m none (pos 0) (rw (missing, read) refl) refl
            exact.0)
          steady exact.1)
        live

  -- What two calls at one moment leave if both read before either writes.
  unfoldable pub interleaved : ℕ → String → ℤ → ℤ → ℤ → Memory F → Memory F
  unfolding read write_window
  interleaved now k ttl d₁ d₂ m =
      let (m₁, e₁) = read F now k m in
      let (m₂, e₂) = read F now k m₁ in
      let m₃ = write_window F now k ttl (counted F e₁ +ℤ d₁) m₂ in
      write_window F now k ttl (counted F e₂ +ℤ d₂) m₃

  Counts-entry :
      (now : ℕ) (k : String) (m : Memory F) (e : MemEntry F)
      → get m k ≡ some e
      → e.is_f ≡ true
      → Counts k m (counted F (some e)) e.expire
  Counts-entry now k m e found is_f = record {
    entry = e;
    found = found;
    is_float = is_f;
    value = ground (arith, is_f);
    expires = refl;
  }

  -- `IncrWindow` reads and writes in two steps. Where a key holds a number that has not expired, the new
  -- time to live is not negative, and a float holds the sums exactly (a float64 does up to 2^53): two calls
  -- one after the other count both; if both read before either writes, what the first adds is lost.
  pub interleaved-get_counter :
      (now : ℕ) (k : String) (ttl d₁ d₂ : ℤ) (m : Memory F) (e : MemEntry F)
      → get m k ≡ some e
      → e.is_f ≡ true
      → now ≤ e.expire
      → now ≤ after now ttl
      → IsExact (counted F (some e) +ℤ d₁)
      → IsExact ((counted F (some e) +ℤ d₁) +ℤ d₂)
      → IsExact (counted F (some e) +ℤ d₂)
      → let n = counted F (some e) in
        let m₁ = (incr_window F now k ttl d₁ m).0 in
        ((get_counter F now k (incr_window F now k ttl d₂ m₁).0).1 ≡ (n +ℤ d₁) +ℤ d₂)
        × ((get_counter F now k (interleaved now k ttl d₁ d₂ m)).1 ≡ n +ℤ d₂)
  unfolding interleaved write_window
  interleaved-get_counter now k ttl d₁ d₂ m e found is_f live fresh one both two =
      let c = Counts-entry now k m e found is_f in
      let twice =
        incr_window-Counts now k ttl d₂ _ _ _ (incr_window-Counts now k ttl d₁ m _ _ c live one)
          fresh both in
      let r = read-live now k m e found live in
      (
        get_counter-Counts now k _ _ _ twice fresh,
        get_counter-Counts now k _ (counted F (some e) +ℤ d₂) (after now ttl)
            (record {
              entry = record {
                content = none;
                f = F.from_int (counted F (some e) +ℤ d₂);
                is_f = true;
                expire = after now ttl;
              };
              found = rw r (rw r (get-put_self _ k _));
              is_float = refl;
              value = two;
              expires = refl;
            })
            fresh,
      )
