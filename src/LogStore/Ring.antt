-- ===== src/LogStore/Ring.antt =====
-- internal/logstore/logstore.go: the ring holds the last records.
use claude_code_gateway.Prelude.{
  ℕ, suc, ◌+◌, ◌-◌, ◌≡◌, sym, ap, ◌∙◌, String, true, false, List, [], ◌∷◌, ◌++◌, arith,
  if◌then◌else◌, ltb, Bool-cases, inl, inr, length, drop, length-append, length-drop, drop-append,
  drop-drop_one,
}
use mathlib.Core.List.{append-nil, append_assoc}
use claude_code_gateway.Prelude.Floats.{Floats}
use claude_code_gateway.Prelude.Int.{ℤ}
use claude_code_gateway.LogStore.{Record, LogStore, new_log, add_record, add_records}

-- The last `n` elements.
abbrev pub last : {A : Type 0} → ℕ → List A → List A
last n xs = drop (length xs - n) xs

-- To cut a list of at most `max` elements and one more.
abbrev cut : {A : Type 0} → ℕ → List A → List A
cut max ring = if ltb max (length ring) then drop (length ring - max) ring else ring

cut-last :
    {A : Type 0} (max : ℕ) (xs : List A) (x : A)
    → cut max (last max xs ++ x ∷ []) ≡ last max (xs ++ x ∷ [])
cut-last max xs x =
    let d = length xs - max in
    let ring = last max xs ++ x ∷ [] in
    let size : length ring ≡ length xs - d + 1 =
      omega (arith, length-append (last max xs) (x ∷ []), length-drop d xs) in
    let whole : length (xs ++ x ∷ []) ≡ length xs + 1 = omega (arith, length-append xs (x ∷ [])) in
    elim (Bool-cases (ltb (length xs) max)) [
      | inl room ↦
          let none' : d ≡ 0 = ground (arith, room) in
          let fits : ltb max (length ring) ≡ false = ground (arith, room, size) in
          ap (λ b. if b then drop (length ring - max) ring else ring) fits
          ∙ ap (λ n. drop n xs ++ x ∷ []) none'
          ∙ ap (λ n. drop n (xs ++ x ∷ [])) {x = 0} (ground (arith, room, whole))
      | inr full ↦
          let over : ltb max (length ring) ≡ true = ground (arith, full, size) in
          let one : length ring - max ≡ 1 = ground (arith, full, size) in
          ap (λ b. if b then drop (length ring - max) ring else ring) over
          ∙ ap (λ n. drop n ring) one
          ∙ ap (drop 1) (sym (drop-append d xs (x ∷ []) (omega arith)))
          ∙ drop-drop_one d (xs ++ x ∷ [])
          ∙ ap (λ n. drop n (xs ++ x ∷ [])) {x = suc d} (ground (arith, full, whole))
    ]

last-nil : {A : Type 0} (n : ℕ) → last {A = A} n [] ≡ []
last-nil n = ap (λ k. drop k []) {y = 0} (omega arith)

module _ (F : Floats) (day hour : ℕ → String) where
  add_records-last :
      (rs before : List (Record F)) (s : LogStore F)
      → s.ring ≡ last s.ring_max before
      → (add_records F day hour rs s).ring ≡ last s.ring_max (before ++ rs)
  unfolding add_records add_record
  add_records-last [] before s h = h ∙ ap (last s.ring_max) (sym (append-nil before))
  add_records-last (r ∷ rs) before s h =
      add_records-last rs (before ++ r ∷ []) (add_record F day hour r s)
        (ap (λ l. cut s.ring_max (l ++ r ∷ [])) h ∙ cut-last s.ring_max before r)
      ∙ ap (last s.ring_max) (append_assoc before (r ∷ []) rs)

  -- The ring holds exactly the last records that have been logged, in their order: as many as the ring
  -- has room for, or all.
  pub add_records-ring :
      (ring_size : ℤ) (rs : List (Record F))
      → let s = new_log F ring_size in (add_records F day hour rs s).ring ≡ last s.ring_max rs
  unfolding new_log
  add_records-ring ring_size rs = add_records-last rs [] (new_log F ring_size) (sym (last-nil _))
