-- ===== src/State/Examples.antt =====
-- Runs of internal/state/state.go, with the integers as floats.
use claude_code_gateway.Prelude.{ℕ, ◌*◌, ◌≡◌, ◌≢◌, refl, String, true, [], ◌∷◌, none, arith}
use text.Mathlib.TextEquality.{eq_iff}
use claude_code_gateway.Prelude.GoMap.{get}
use claude_code_gateway.Prelude.Int.{pos, ◌+ℤ◌}
use claude_code_gateway.Prelude.Time.{second, minute}
use claude_code_gateway.Cache.Examples.{integers}
use claude_code_gateway.State.{MemEntry, incr_window, get_counter}
use claude_code_gateway.State.Windows.{
  Call, total, incr_all, incr_all-get_counter, interleaved, interleaved-get_counter,
}

abbrev every_half_minute : ℕ → Call
every_half_minute n = record { at = n * 30 * second; ttl = pos minute; delta = pos 1 }

-- Three calls, half a minute apart.
incr_all-get_counter_example :
    (get_counter integers (100 * second) "k" (
      incr_all integers "k"
        (every_half_minute 1 ∷ every_half_minute 2 ∷ every_half_minute 3 ∷ [])
        [])).1
    ≡ total (pos 0) (every_half_minute 1 ∷ every_half_minute 2 ∷ every_half_minute 3 ∷ [])
unfolding get
incr_all-get_counter_example =
    incr_all-get_counter integers "k" [] (every_half_minute 1)
      (every_half_minute 2 ∷ every_half_minute 3 ∷ []) (100 * second) refl
      (omega arith, omega arith, (omega arith, omega arith, tt)) (omega arith)
      (refl, (refl, (refl, tt)))

abbrev held : MemEntry integers
held = record { content = none; f = pos 5; is_f = true; expire = minute }

interleaved-get_counter_example :
    ((get_counter integers second "k"
        (incr_window integers second "k"
          (pos minute)
          (pos 2)
          (incr_window integers second "k" (pos minute) (pos 1) (("k", held) ∷ [])).0).0).1
      ≡ (pos 5 +ℤ pos 1) +ℤ pos 2)
    × ((get_counter integers second "k"
          (interleaved integers second "k" (pos minute) (pos 1) (pos 2) (("k", held) ∷ []))).1
        ≡ pos 5 +ℤ pos 2)
unfolding get
interleaved-get_counter_example =
    interleaved-get_counter integers second "k" (pos minute) (pos 1) (pos 2) (("k", held) ∷ []) held
      refl refl (omega arith) (omega arith) refl refl refl

k_not_j : ◌≢◌ {A = String} "k" "j"
k_not_j = ground (arith, eq_iff "k" "j")
