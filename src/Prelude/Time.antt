-- ===== src/Prelude/Time.antt =====
-- Go's `time.Time` and `time.Duration` as nanoseconds. A moment is counted from the zero `Time`
-- (year 1), so that `time.Time{}` is 0, `a.Before(b)` is `a < b` and `a.After(b)` is `b < a`.
use Prim.Native.Nat.{ℕ, ◌*◌}

abbrev pub second : ℕ
second = 1_000_000_000

abbrev pub minute : ℕ
minute = 60 * second
