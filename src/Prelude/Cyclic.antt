-- ===== src/Prelude/Cyclic.antt =====
-- Positions modulo the length of a list: a walk of `n` steps from any start reaches each of them.
use Prim.Native.Nat.{ℕ, ◌+◌, ◌-◌, ◌%◌, ◌<◌}
use mathlib.Core.Path.{◌≡◌, sym, ap, ◌∙◌}
use native.Mathlib.Nat.{mod-eq_of_lt, mod-add-mod, add-mod-mod, add-mod_right}
use native.Mathlib.Omega.{arith}

pub mod-range : (a n : ℕ) → 0 < n → a % n < n
mod-range a n h = grind arith

-- The step at which a walk from `start` stands at `j`.
abbrev pub step_to : ℕ → ℕ → ℕ → ℕ
step_to n start j = (j + (n - start % n)) % n

pub step_to-lt : (n start j : ℕ) → 0 < n → step_to n start j < n
step_to-lt n start j h = mod-range (j + (n - start % n)) n h

pub step_to_lem : (n start j : ℕ) → j < n → (start + step_to n start j) % n ≡ j
step_to_lem n start j h =
    let x = j + (n - start % n) in
    let range : start % n < n = mod-range start n (omega arith) in
    let whole : start % n + x ≡ j + n = omega arith in
    add-mod-mod start x n
    ∙ sym (mod-add-mod start n x)
    ∙ ap (λ (t : ℕ). t % n) whole
    ∙ add-mod_right j n
    ∙ mod-eq_of_lt h
