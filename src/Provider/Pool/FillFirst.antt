-- ===== src/Provider/Pool/FillFirst.antt =====
-- internal/provider/pool.go, `fillFirst`: what the strategy changes.
use claude_code_gateway.Prelude.{
  ℕ, zero, suc, ◌+◌, ◌%◌, ◌<◌, ◌≡◌, refl, Bool, Option, none, some, Option-cases, inl, inr,
  Bool-cases, nat_beq, if◌then◌else◌, arith, length, get_elem?, set,
}
use claude_code_gateway.Provider.Pool.{
  KeyState, Pool, Scanned, scan, pick, ready, set_fill_first, counted, sooner,
}
use claude_code_gateway.Provider.Pool.Pick.{pick-scan}

abbrev flagged : Bool → Pool × Scanned → Pool × Scanned
flagged b (p, s) = (set_fill_first b p, s)

-- The first loop does not look at the strategy.
scan-set_fill_first :
    (b : Bool) (left i now : ℕ) (p : Pool) (fb : Option KeyState)
    → scan left i now (set_fill_first b p) fb ≡ flagged b (scan left i now p fb)
unfolding scan set_fill_first
scan-set_fill_first b zero i now p fb = refl
scan-set_fill_first b (suc left) i now p fb =
    elim (Option-cases (get_elem? p.keys ((p.idx + i) % length p.keys))) [
      | inl out ↦ rw (out, scan)
      | inr (k, here) ↦
          let p' : Pool = record p {
            keys = set p.keys ((p.idx + i) % length p.keys) (counted k);
          } in
          let fb' : Option KeyState = if sooner k fb then some (counted k) else fb in
          rw (here, scan)
            (elim (Bool-cases (ready now k)) [
              | inl hot ↦ rw hot
              | inr cold ↦ ground (arith, scan-set_fill_first b left (i + 1) now p' fb')
            ])
    ]

-- `fill_first` has no effect: at any moment a pool picks the same key, and moves on in the same
-- way, whether the strategy is set or not.
pub pick-set_fill_first :
    (b : Bool) (now : ℕ) (p : Pool)
    → pick now (set_fill_first b p) ≡ (set_fill_first b (pick now p).0, (pick now p).1)
unfolding pick set_fill_first
pick-set_fill_first b now p = elim (Bool-cases (nat_beq (length p.keys) 0)) [
  | inl empty ↦ rw (empty, pick)
  | inr some_key ↦
      let pos : 0 < length p.keys = ground arith in
      rw (
        pick-scan now (set_fill_first b p) pos,
        pick-scan now p pos,
        scan-set_fill_first b (length p.keys) 0 now p none,
      )
]
