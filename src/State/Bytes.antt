-- ===== src/State/Bytes.antt =====
-- internal/state/state.go: the bytes of the store in memory.
use claude_code_gateway.Prelude.{
  ℕ, ◌≡◌, ◌≢◌, sym, ap, ◌∙◌, String, ◌&&◌, Option, none, some, arith, if◌then◌else◌, ltb,
  Option-cases, inl, inr, string_eq,
}
use text.Mathlib.TextEquality.{eq_iff}
use claude_code_gateway.Prelude.Floats.{Floats}
use claude_code_gateway.Prelude.GoMap.{get, put, get-put, get-delete, get-put_self}
use claude_code_gateway.Prelude.Int.{ℤ, pos, ltb_ℤ}
use claude_code_gateway.State.{
  MemEntry, Memory, after, lapsed, read, write_window, incr_window, set_ttl_bytes, get_bytes,
}

module _ (F : Floats) where
  seen : ℕ → Option (MemEntry F) → Option (Option String)
  seen now none = none
  seen now (some e) = if lapsed F now e then none else some e.content

  get_bytes-seen :
      (now : ℕ) (k : String) (m : Memory F) → (get_bytes F now k m).1 ≡ seen now (get m k)
  unfolding get_bytes read seen
  get_bytes-seen now k m = elim (Option-cases (get m k)) [
    | inl missing ↦ ground (arith, missing)
    | inr (e, found) ↦ ground (arith, found)
  ]

  read_other : (now : ℕ) (k j : String) (m : Memory F) → k ≢ j → get (read F now k m).0 j ≡ get m j
  unfolding read
  read_other now k j m apart = elim (Option-cases (get m k)) [
    | inl missing ↦ ground (arith, missing)
    | inr (e, found) ↦ ground (arith, found, get-delete m k j, eq_iff k j)
  ]

  get_bytes-put_other :
      (later : ℕ) (k j : String) (e : MemEntry F) (m : Memory F)
      → k ≢ j
      → (get_bytes F later j (put m k e)).1 ≡ seen later (get m j)
  get_bytes-put_other later k j e m apart =
      get_bytes-seen later j (put m k e)
      ∙ ap (seen later) {y = get m j} (ground (arith, get-put m k j e, eq_iff k j))

  -- What `SetTTLBytes` stores can be read until its time to live has passed, or for ever if that is not
  -- positive; and neither `SetTTLBytes` nor `IncrWindow` changes what can be read at another key.
  pub set_ttl_bytes-get_bytes :
      (now later : ℕ) (k j : String) (v : String) (ttl delta : ℤ) (m : Memory F)
      → k ≢ j
      → ((get_bytes F later k (set_ttl_bytes F now k v ttl m)).1
          ≡ (if ltb_ℤ (pos 0) ttl && ltb (after now ttl) later then none else some (some v)))
        × ((get_bytes F later j (set_ttl_bytes F now k v ttl m)).1 ≡ (get_bytes F later j m).1)
        × ((get_bytes F later j (incr_window F now k ttl delta m).0).1 ≡ (get_bytes F later j m).1)
  unfolding set_ttl_bytes incr_window write_window seen
  set_ttl_bytes-get_bytes now later k j v ttl delta m apart = (
    get_bytes-seen later k _ ∙ ap (seen later) (get-put_self m k _) ∙ ground arith,
    get_bytes-put_other later k j _ m apart ∙ sym (get_bytes-seen later j m),
    get_bytes-put_other later k j _ (read F now k m).0 apart
        ∙ ap (seen later) (read_other now k j m apart)
        ∙ sym (get_bytes-seen later j m),
  )
