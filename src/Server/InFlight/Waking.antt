-- ===== src/Server/InFlight/Waking.antt =====
-- internal/server/ratelimit.go, `inFlight`: a call of `wait` is not forgotten.
use claude_code_gateway.Prelude.{
  All, ℕ, zero, suc, ◌<◌, ◌≡◌, ◌⊎◌, refl, ap, ◌∙◌, Bool, true, false, List, [], ◌∷◌, inl, inr,
  arith, if◌then◌else◌, Bool-cases, either_branch,
}
use claude_code_gateway.Server.InFlight.{
  InFlight, Waiter, idle, checking, blocked, returned, Step, begin, end_add, end_load, end_select,
  end_close, wait_store, wait_load, wait_receive, end_adds, end_loads, end_selects, end_closes,
  wait_stores, wait_loads, wait_receives, step, Reachable, at_start, after,
}

abbrev pub waits : Waiter → Bool
waits idle = false
waits checking = false
waits blocked = true
waits returned = false

abbrev started : Waiter → Bool
started idle = false
started checking = true
started blocked = true
started returned = true

waits-started : (x : Waiter) → waits x ≡ true → started x ≡ true
waits-started idle b = absurd (ground (arith, b))
waits-started checking b = refl
waits-started blocked b = refl
waits-started returned b = refl

abbrev pub Woken : InFlight → Type 0
Woken s = (s.done ≡ true) ⊎ (0 < s.ending) ⊎ (0 < s.closers) ⊎ (0 < s.at_close)

-- If `wait` is blocked and no request is left, the channel is closed or some call of `end` will do it.
record Wakes (s : InFlight) : Type 0 where
  closing : started s.waiter ≡ true → s.closing ≡ true
  woken : waits s.waiter ≡ true → s.count ≡ 0 → Woken s

end_adds-Wakes : (n : ℕ) (s : InFlight) → Wakes s → Wakes (end_adds n s)
end_adds-Wakes zero s w = w
end_adds-Wakes (suc n) s w = record {
  closing = w.closing;
  woken = λ b z. inr (inl (ground (arith, z)));
}

end_loads-Wakes : (n : ℕ) (s : InFlight) → s.ending ≡ n → Wakes s → Wakes (end_loads n s)
end_loads-Wakes zero s e w = w
end_loads-Wakes (suc n) s e w = record {
  closing = w.closing;
  woken = λ b z. inr (inr (inl (ground (arith, w.closing (waits-started s.waiter b)))));
}

end_selects-Wakes : (n : ℕ) (s : InFlight) → Wakes s → Wakes (end_selects n s)
end_selects-Wakes zero s w = w
end_selects-Wakes (suc n) s w = record {
  closing = w.closing;
  woken = λ b z. elim (Bool-cases s.done) [
    | inl closed ↦ inl closed
    | inr open' ↦ inr (inr (inr (ground (arith, open'))))
  ];
}

end_closes-Wakes : (n : ℕ) (s : InFlight) → Wakes s → Wakes (end_closes n s)
end_closes-Wakes zero s w = w
end_closes-Wakes (suc n) s w = record { closing = w.closing; woken = λ b z. inl refl }

wait_stores-Wakes : (x : Waiter) (s : InFlight) → Wakes s → Wakes (wait_stores x s)
wait_stores-Wakes idle s w = record {
  closing = λ _. refl;
  woken = λ b z. absurd (ground (arith, b));
}
wait_stores-Wakes checking s w = w
wait_stores-Wakes blocked s w = w
wait_stores-Wakes returned s w = w

-- `wait` blocks only where there are requests.
wait_loads-Wakes : (x : Waiter) (s : InFlight) → s.waiter ≡ x → Wakes s → Wakes (wait_loads x s)
wait_loads-Wakes idle s e w = w
wait_loads-Wakes checking s e w = record {
  closing = λ _. w.closing (ap started e);
  woken = λ b z. absurd (ground (arith, b, z));
}
wait_loads-Wakes blocked s e w = w
wait_loads-Wakes returned s e w = w

wait_receives-Wakes :
    (x : Waiter) (s : InFlight) → s.waiter ≡ x → Wakes s → Wakes (wait_receives x s)
wait_receives-Wakes idle s e w = w
wait_receives-Wakes checking s e w = w
wait_receives-Wakes blocked s e w =
    either_branch Wakes s.done
      (λ _. record {
        closing = λ _. w.closing (ap started e);
        woken = λ b z. absurd (ground (arith, b));
      })
      (λ _. w)
wait_receives-Wakes returned s e w = w

step-Wakes : (a : Step) (s : InFlight) → Wakes s → Wakes (step a s)
unfolding step
step-Wakes begin s w = record { closing = w.closing; woken = λ b z. absurd (omega (arith, z)) }
step-Wakes end_add s w = end_adds-Wakes s.count s w
step-Wakes end_load s w = end_loads-Wakes s.ending s refl w
step-Wakes end_select s w = end_selects-Wakes s.closers s w
step-Wakes end_close s w = end_closes-Wakes s.at_close s w
step-Wakes wait_store s w = wait_stores-Wakes s.waiter s w
step-Wakes wait_load s w = wait_loads-Wakes s.waiter s refl w
step-Wakes wait_receive s w = wait_receives-Wakes s.waiter s refl w

Reachable-Wakes : (s : InFlight) → Reachable s → Wakes s
Reachable-Wakes s at_start = record {
  closing = λ b. absurd (ground (arith, b));
  woken = λ b z. absurd (ground (arith, b));
}
Reachable-Wakes s (after {s = t} a r) = step-Wakes a t (Reachable-Wakes t r)

-- However the calls interleave: if `wait` is blocked and no request is left, the channel is closed, or
-- a call of `end` is about to read `closing`, which is set, to look at the channel, or to close it.
pub Reachable-Woken :
    (s : InFlight)
    → Reachable s
    → waits s.waiter ≡ true
    → s.count ≡ 0
    → (s.closing ≡ true) × Woken s
Reachable-Woken s r b z =
    let w = Reachable-Wakes s r in (w.closing (waits-started s.waiter b), w.woken b z)

unfoldable pub run : List Step → InFlight → InFlight
unfolding step
run [] s = s
run (a ∷ as') s = run as' (step a s)

waits-blocked : (x : Waiter) → waits x ≡ true → x ≡ blocked
waits-blocked idle b = absurd (ground (arith, b))
waits-blocked checking b = absurd (ground (arith, b))
waits-blocked blocked b = refl
waits-blocked returned b = absurd (ground (arith, b))

-- A step of a call of `end` that has counted its request out, or of the blocked call of `wait`: not the
-- start of a request, nor the end of another.
abbrev pub IsUnderway : Step → Type 0
IsUnderway begin = ⊥
IsUnderway end_add = ⊥
IsUnderway wait_store = ⊥
IsUnderway wait_load = ⊥
IsUnderway end_load = Unit
IsUnderway end_select = Unit
IsUnderway end_close = Unit
IsUnderway wait_receive = Unit

wakes_done :
    (s : InFlight)
    → s.waiter ≡ blocked
    → s.done ≡ true
    → (run (wait_receive ∷ []) s).waiter ≡ returned
unfolding run step
wakes_done s b d =
    ap (λ x. (wait_receives x s).waiter) b
    ∙ ap (λ (x : Bool). (if x then record s { waiter = returned } else s).waiter) d

wakes_at_close :
    (s : InFlight)
    → s.waiter ≡ blocked
    → 0 < s.at_close
    → (run (end_close ∷ wait_receive ∷ []) s).waiter ≡ returned
unfolding run step
wakes_at_close s b c = wakes_done (step end_close s) (same s.at_close ∙ b) (closes s.at_close c)
  where
    same : (n : ℕ) → (end_closes n s).waiter ≡ s.waiter
    same zero = refl
    same (suc n) = refl

    closes : (n : ℕ) → 0 < n → (end_closes n s).done ≡ true
    closes zero h = absurd (omega (arith, h))
    closes (suc n) h = refl

-- One that looks at the channel either finds it closed or closes it.
wakes_closer :
    (s : InFlight)
    → s.waiter ≡ blocked
    → 0 < s.closers
    → (as' : List Step) × All IsUnderway as' × ((run as' s).waiter ≡ returned)
unfolding run step
wakes_closer s b c = elim (Bool-cases s.done) [
  | inl closed ↦ (wait_receive ∷ [], (tt, tt), wakes_done s b closed)
  | inr open' ↦ (
    end_select ∷ end_close ∷ wait_receive ∷ [],
    (tt, (tt, (tt, tt))),
    wakes_at_close (step end_select s) (same s.closers ∙ b) (selects s.closers c open'),
  )
]
  where
    same : (n : ℕ) → (end_selects n s).waiter ≡ s.waiter
    same zero = refl
    same (suc n) = refl

    selects : (n : ℕ) → 0 < n → s.done ≡ false → 0 < (end_selects n s).at_close
    selects zero h o = absurd (omega (arith, h))
    selects (suc n) h o = ground (arith, o)

wakes_ending :
    (s : InFlight)
    → s.waiter ≡ blocked
    → s.closing ≡ true
    → 0 < s.ending
    → (as' : List Step) × All IsUnderway as' × ((run as' s).waiter ≡ returned)
unfolding run step
wakes_ending s b on e =
    let (steps, under, w) = wakes_closer (step end_load s) (same s.ending ∙ b) (loads s.ending e) in
    (end_load ∷ steps, (tt, under), w)
  where
    same : (n : ℕ) → (end_loads n s).waiter ≡ s.waiter
    same zero = refl
    same (suc n) = refl

    loads : (n : ℕ) → 0 < n → 0 < (end_loads n s).closers
    loads zero h = absurd (omega (arith, h))
    loads (suc n) h = ground (arith, on)

-- From wherever the calls have come to, if `wait` is blocked and no request is left, the calls of `end`
-- that are under way can take steps, without a request that begins or ends, after which `wait` returns:
-- its wake-up is never lost.
pub run-returned :
    (s : InFlight)
    → Reachable s
    → waits s.waiter ≡ true
    → s.count ≡ 0
    → (as' : List Step) × All IsUnderway as' × ((run as' s).waiter ≡ returned)
run-returned s r b z =
    let blocked' = waits-blocked s.waiter b in
    let (on, cause) = Reachable-Woken s r b z in
    elim (Bool-cases s.done) [
      | inl d ↦ (wait_receive ∷ [], (tt, tt), wakes_done s blocked' d)
      | inr open' ↦ elim cause [
        | inl d ↦ (wait_receive ∷ [], (tt, tt), wakes_done s blocked' d)
        | inr (inl e) ↦ wakes_ending s blocked' on e
        | inr (inr (inl c)) ↦ wakes_closer s blocked' c
        | inr (inr (inr c)) ↦
            (end_close ∷ wait_receive ∷ [], (tt, (tt, tt)), wakes_at_close s blocked' c)
      ]
    ]
