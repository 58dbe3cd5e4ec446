-- ===== src/Provider/Registry/Balance.antt =====
-- internal/provider/registry.go: load balancing and session affinity only reorder the targets.
use mathlib.Core.List.{Perm, perm_middle, perm_append_comm, reverse_perm, append-nil}
use mathlib.Core.List.Perm
use claude_code_gateway.Prelude.{
  ℕ, ◌%◌, String, Bool, List, [], ◌∷◌, ◌++◌, inl, inr, Bool-cases, take, drop, take-append-drop,
  length, subst,
}
use claude_code_gateway.Provider.Registry.{
  Target, Registry, insert_back, sort_back, sticky_rotate, fnv32,
}
use claude_code_gateway.Provider.Registry.Choice.{order_by_strategy}

module _ {A : Type 0} (less : A → A → ℕ → Bool × ℕ) where
  insert_back-perm : (x : A) (ys : List A) (d : ℕ) → Perm (insert_back less x ys d).0 (x ∷ ys)
  unfolding insert_back
  insert_back-perm x [] d = Perm.refl (x ∷ [])
  insert_back-perm x (y ∷ ys) d = elim (Bool-cases (less x y d).0) [
    | inl before ↦
        rw before
          (Perm.trans (Perm.cons y (insert_back-perm x ys (less x y d).1)) (Perm.swap x y ys))
    | inr after ↦ rw after (Perm.refl (x ∷ y ∷ ys))
  ]

  sort_back-perm : (sorted xs : List A) (d : ℕ) → Perm (sort_back less sorted xs d).0 (xs ++ sorted)
  unfolding sort_back
  sort_back-perm sorted [] d = Perm.refl sorted
  sort_back-perm sorted (x ∷ xs) d =
      let (sorted', d') = insert_back less x sorted d in
      Perm.trans (sort_back-perm sorted' xs d')
        (Perm.trans (Perm.append_left xs (insert_back-perm x sorted d)) (perm_middle xs sorted))

-- Whatever the strategy and the random draws, each target stands in the order exactly once.
pub order_by_strategy-perm :
    (random : ℕ → ℕ) (r : Registry) (tg : List Target) (strategy : String)
    → Perm (order_by_strategy random r tg strategy) tg
unfolding order_by_strategy
order_by_strategy-perm random r tg strategy =
    Perm.trans (reverse_perm _)
      (subst (Perm (sort_back _ [] tg 0).0) (append-nil tg) (sort_back-perm _ [] tg 0))

-- Affinity rotates the targets.
pub sticky_rotate-perm : (tg : List Target) (id : String) → Perm (sticky_rotate tg id) tg
unfolding sticky_rotate
sticky_rotate-perm tg id =
    let off = fnv32 id % length tg in
    subst (Perm (sticky_rotate tg id)) (take-append-drop off tg)
      (perm_append_comm (drop off tg) (take off tg))
