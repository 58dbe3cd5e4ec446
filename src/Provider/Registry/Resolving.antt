-- ===== src/Provider/Registry/Resolving.antt =====
-- internal/provider/registry.go, `Resolve`: the targets whose breaker is open are left out, unless
-- all are.
use mathlib.Core.List.{
  Mem, Perm, not-mem-nil, mem-cons_self, mem-cons_of_mem, eq-or-mem_of_mem-cons, Mem-prop,
}
use mathlib.Core.List.Perm
use mathlib.Core.Bool.{Bool-set}
use mathlib.Core.Logic.Or
use mathlib.Core.HLevel.{×_prop}
use claude_code_gateway.Prelude.{
  ℕ, ◌<◌, ◌≡◌, ◌↔◌, refl, ap, ◌∙◌, String, Bool, true, false, not, ◌&&◌, List, [], ◌∷◌, inl, inr,
  Bool-cases, Option-cases, some, subst, sym, ◌/◌, ◌-◌, if◌then◌else◌, arith, ltb, length,
  string_eq, ◌==◌,
}
use claude_code_gateway.Prelude.GoMap.{get}
use claude_code_gateway.Prelude.Time.{second}
use claude_code_gateway.Provider.Breaker.{is_open}
use claude_code_gateway.Provider.Registry.{Upstream, Target, Registry, ResolveInfo, sticky_rotate}
use claude_code_gateway.Provider.Registry.Balance.{sticky_rotate-perm}
use claude_code_gateway.Provider.Registry.Choice.{live, shut_off, pick_live, resolve, chosen}

apart : {b : Bool} → b ≡ true → b ≡ false → ⊥
apart h k = ground arith

-- The provider of the target is known, and its breaker has a deadline, in Unix seconds, that has not
-- come.
abbrev pub IsShut : Registry → ℕ → Target → Type 0
IsShut r now t =
    (u : Upstream) × (get r.providers t.name ≡ some u)
    × (now / second - 62_135_596_800 < u.health.open_until)

shut_off-IsShut : (r : Registry) (now : ℕ) (t : Target) → (shut_off r now t ≡ true) ↔ IsShut r now t
unfolding is_open
shut_off-IsShut r now t = elim (Option-cases (get r.providers t.name)) [
  | inl missing ↦ (
    λ h. absurd (ground (arith, missing, h)),
    λ (u, found, late). absurd (ground (arith, missing, found)),
  )
  | inr (v, known) ↦ (
    λ h. (v, known, ground (arith, known, h)),
    λ (u, found, late).
        let same : v ≡ u = ground (arith, known, found) in
        let late' : now / second - 62_135_596_800 < v.health.open_until =
          subst (λ x. now / second - 62_135_596_800 < x.health.open_until) (sym same) late in
        ground (arith, known, late'),
  )
]

not-IsShut : (r : Registry) (now : ℕ) (t : Target) → (shut_off r now t ≡ false) ↔ (¬ IsShut r now t)
not-IsShut r now t = (
  λ on shut. apart ((shut_off-IsShut r now t).1 shut) on,
  λ h. elim (Bool-cases (shut_off r now t)) [
    | inl off ↦ absurd (h ((shut_off-IsShut r now t).0 off))
    | inr on ↦ on
  ],
)

module _ (r : Registry) (now : ℕ) where
  live-keeps :
      (t : Target) (tg : List Target) → shut_off r now t ≡ false → Mem t tg → Mem t (live r now tg)
  unfolding live
  live-keeps t [] on m = absurd (not-mem-nil m)
  live-keeps t (x ∷ tg) on m = elim (Bool-cases (shut_off r now x)) [
    | inl off ↦ rw off (
        Or.elim Mem-prop (eq-or-mem_of_mem-cons m)
          (λ e. absurd (apart (ap (shut_off r now) e ∙ off) on)) (live-keeps t tg on))
    | inr kept ↦ rw kept (
        Or.elim Mem-prop (eq-or-mem_of_mem-cons m) (λ e. rw e mem-cons_self)
          (λ k. mem-cons_of_mem x (live-keeps t tg on k)))
  ]

  live-from :
      (t : Target) (tg : List Target)
      → Mem t (live r now tg)
      → Mem t tg × (shut_off r now t ≡ false)
  unfolding live
  live-from t [] m = absurd (not-mem-nil m)
  live-from t (x ∷ tg) m = elim (Bool-cases (shut_off r now x)) [
    | inl off ↦ let (m', on) = live-from t tg (rw off at m) in (mem-cons_of_mem x m', on)
    | inr kept ↦
        Or.elim (×_prop Mem-prop (Bool-set _ _)) (eq-or-mem_of_mem-cons (rw kept at m))
          (λ e. (rw e mem-cons_self, ap (shut_off r now) e ∙ kept))
          (λ k. let (m', on) = live-from t tg k in (mem-cons_of_mem x m', on))
  ]

  -- A live target keeps the list from being empty.
  live-pos : (t : Target) (tg : List Target) → Mem t (live r now tg) → 0 < length (live r now tg)
  live-pos t tg m = some_in (live r now tg) m
    where
      some_in : (xs : List Target) → Mem t xs → 0 < length xs
      some_in [] k = absurd (not-mem-nil k)
      some_in (x ∷ xs) k = omega arith

  live-none :
      (tg : List Target) → ((t : Target) → Mem t tg → shut_off r now t ≡ true) → live r now tg ≡ []
  unfolding live
  live-none [] h = refl
  live-none (x ∷ tg) h = rw (h x mem-cons_self) (live-none tg (λ t m. h t (mem-cons_of_mem x m)))

  module _ (inf : ResolveInfo) where
    -- The list that `pick` filters.
    abbrev turned : List Target → List Target
    turned tg =
        if r.affinity && not (inf.session_id == "") && ltb 1 (length tg)
        then sticky_rotate tg inf.session_id
        else tg

    turned-perm : (tg : List Target) → Perm (turned tg) tg
    turned-perm tg =
        elim (Bool-cases (r.affinity && not (inf.session_id == "") && ltb 1 (length tg))) [
          | inl yes' ↦ rw yes' (sticky_rotate-perm tg inf.session_id)
          | inr no' ↦ rw no' (Perm.refl tg)
        ]

    pick_live_some :
        (tg : List Target) (m : String)
        → 0 < length (live r now (turned tg))
        → pick_live r now inf (tg, m) ≡ (live r now (turned tg), m)
    unfolding pick_live
    pick_live_some tg m pos = ground arith

    pick_live_none :
        (tg : List Target) (m : String)
        → live r now (turned tg) ≡ []
        → pick_live r now inf (tg, m) ≡ (turned tg, m)
    unfolding pick_live
    pick_live_none tg m e = ground arith

    same_members : (u : Target) (tg : List Target) → Mem u (turned tg) ↔ Mem u tg
    same_members u tg = Perm.mem_iff (turned-perm tg)

    pick_live-live :
        (tg : List Target) (m : String) (t : Target)
        → Mem t tg
        → shut_off r now t ≡ false
        → (u : Target)
        → Mem u (pick_live r now inf (tg, m)).0 ↔ (Mem u tg × (shut_off r now u ≡ false))
    pick_live-live tg m t here on u =
        let pos =
          live-pos t (turned tg) (live-keeps t (turned tg) on ((same_members t tg).1 here)) in
        rw (pick_live_some tg m pos) (
          λ k. let (k', on') = live-from u (turned tg) k in ((same_members u tg).0 k', on'),
          λ (k, on'). live-keeps u (turned tg) on' ((same_members u tg).1 k),
        )

    pick_live-all_shut :
        (tg : List Target) (m : String)
        → ((t : Target) → Mem t tg → shut_off r now t ≡ true)
        → Perm (pick_live r now inf (tg, m)).0 tg
    pick_live-all_shut tg m h =
        rw (pick_live_none tg m (live-none (turned tg) (λ t k. h t ((same_members t tg).0 k))))
          (turned-perm tg)

-- A target is shut off where its provider's breaker has a deadline that has not come. If some target chosen for the model is not shut off, the targets are exactly the chosen
-- ones that are not; if all are shut off, they are all the chosen ones, in some order.
pub resolve_targets :
    (random : ℕ → ℕ) (r : Registry) (now : ℕ) (model : String) (inf : ResolveInfo)
    → ((t : Target)
        → Mem t (chosen random r model inf).0
        → ¬ IsShut r now t
        → (u : Target)
        → Mem u (resolve random r now model inf).0
          ↔ (Mem u (chosen random r model inf).0 × (¬ IsShut r now u)))
      × (((t : Target) → Mem t (chosen random r model inf).0 → IsShut r now t)
          → Perm (resolve random r now model inf).0 (chosen random r model inf).0)
unfolding resolve
resolve_targets random r now model inf =
    let (tg, m) = chosen random r model inf in
    (
      λ t here on u.
          let both = pick_live-live r now inf tg m t here ((not-IsShut r now t).1 on) u in
          (
            λ k. let (k', on') = both.0 k in (k', (not-IsShut r now u).0 on'),
            λ (k, on'). both.1 (k, (not-IsShut r now u).1 on'),
          ),
      λ h. pick_live-all_shut r now inf tg m (λ t k. (shut_off-IsShut r now t).1 (h t k)),
    )
