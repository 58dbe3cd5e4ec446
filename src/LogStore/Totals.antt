-- ===== src/LogStore/Totals.antt =====
-- internal/logstore/logstore.go: the totals add up.
use claude_code_gateway.Prelude.{
  ℕ, ◌+◌, ◌≡◌, refl, ◌∙◌, String, List, [], ◌∷◌, arith, if◌then◌else◌, Bool-cases, inl, inr, ◌==◌,
  string_eq, length, subst, ltb, ◌&&◌,
}
use claude_code_gateway.Prelude.Floats.{Floats}
use claude_code_gateway.Prelude.GoMap.{GoMap, get, put}
use claude_code_gateway.Prelude.Int.{ℤ}
use claude_code_gateway.LogStore.{
  Record, Stat, LogStore, is_error, add_stat, new_log, count, add_record, add_records,
}

module _ (F : Floats) where
  abbrev pub sum_requests : GoMap String (Stat F) → ℕ
  sum_requests [] = 0
  sum_requests ((k, s) ∷ m) = s.requests + sum_requests m

  abbrev pub sum_errors : GoMap String (Stat F) → ℕ
  sum_errors [] = 0
  sum_errors ((k, s) ∷ m) = s.errors + sum_errors m

  -- One for a record that has an error text, or a status that is not between 1 and 399.
  abbrev pub failure : Record F → ℕ
  failure r = if r.error == "" then if ltb 0 r.status && ltb r.status 400 then 0 else 1 else 1

  abbrev pub failures : List (Record F) → ℕ
  failures [] = 0
  failures (r ∷ rs) = failure r + failures rs

  failure-is_error : (r : Record F) → (if is_error F r then 1 else 0) ≡ failure r
  failure-is_error r = ground arith

  count-sums :
      (k : String) (r : Record F) (m : GoMap String (Stat F))
      → (sum_requests (count F k r m) ≡ sum_requests m + 1)
        × (sum_errors (count F k r m) ≡ sum_errors m + (if is_error F r then 1 else 0))
  unfolding count get put add_stat
  count-sums k r [] = (omega arith, ground arith)
  count-sums k r ((i, s) ∷ m) = elim (Bool-cases (i == k)) [
    | inl same ↦ ground (arith, same)
    | inr other ↦ let rest = count-sums k r m in ground (arith, other, rest)
  ]

  -- What the totals of a log come to.
  pub record Adds (s : LogStore F) (n e : ℕ) : Type 0 where
    pub total_requests : s.total.requests ≡ n
    pub total_errors : s.total.errors ≡ e
    pub days_requests : sum_requests s.days ≡ n
    pub days_errors : sum_errors s.days ≡ e
    pub hours_requests : sum_requests s.hours ≡ n
    pub hours_errors : sum_errors s.hours ≡ e

  module _ (day hour : ℕ → String) where
    add_record-Adds :
        (r : Record F) (s : LogStore F) (n e : ℕ)
        → Adds s n e
        → Adds (add_record F day hour r s) (n + 1) (e + (if is_error F r then 1 else 0))
    unfolding add_record add_stat
    add_record-Adds r s n e a =
        let d = count-sums (day r.time) r s.days in
        let h = count-sums (hour r.time) r s.hours in
        record {
          total_requests = omega (arith, a.total_requests);
          total_errors = ground (arith, a.total_errors);
          days_requests = d.0 ∙ omega (arith, a.days_requests);
          days_errors = d.1 ∙ ground (arith, a.days_errors);
          hours_requests = h.0 ∙ omega (arith, a.hours_requests);
          hours_errors = h.1 ∙ ground (arith, a.hours_errors);
        }

    Adds-same : (s : LogStore F) (n n' e e' : ℕ) → n ≡ n' → e ≡ e' → Adds s n e → Adds s n' e'
    Adds-same s n n' e e' p q a = record {
      total_requests = a.total_requests ∙ p;
      total_errors = a.total_errors ∙ q;
      days_requests = a.days_requests ∙ p;
      days_errors = a.days_errors ∙ q;
      hours_requests = a.hours_requests ∙ p;
      hours_errors = a.hours_errors ∙ q;
    }

    add_records-Adds_from :
        (rs : List (Record F)) (s : LogStore F) (n e : ℕ)
        → Adds s n e
        → Adds (add_records F day hour rs s) (length rs + n) (failures rs + e)
    unfolding add_records
    add_records-Adds_from [] s n e a = Adds-same s n _ e _ (omega arith) (omega arith) a
    add_records-Adds_from (r ∷ rs) s n e a = Adds-same _ _ _ _ _ (omega arith) (omega arith) (
        add_records-Adds_from rs (add_record F day hour r s) (n + 1) (e + failure r) (
          subst (λ f. Adds (add_record F day hour r s) (n + 1) (e + f)) (failure-is_error r)
            (add_record-Adds r s n e a)))

    -- Whatever has been logged, the totals count every record and every failure (an error text, a status
    -- of 400 or more, or none) once, and so do the figures by day and those by hour when they are added up.
    pub add_records-Adds :
        (ring_size : ℤ) (rs : List (Record F))
        → Adds (add_records F day hour rs (new_log F ring_size)) (length rs) (failures rs)
    unfolding new_log
    add_records-Adds ring_size rs = Adds-same _ _ _ _ _ (omega arith) (omega arith) (
        add_records-Adds_from rs (new_log F ring_size) 0 0 (record {
          total_requests = refl;
          total_errors = refl;
          days_requests = refl;
          days_errors = refl;
          hours_requests = refl;
          hours_errors = refl;
        }))
