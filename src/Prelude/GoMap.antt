-- ===== src/Prelude/GoMap.antt =====
-- A Go map, as an association list in which each key stands at most once. The order of entries is
-- an accident of the representation: a program that ranges over a map sees them in some order.
use Prim.Native.Nat.{◌+◌, ◌≤◌, suc}
use mathlib.Core.Bool.{true}
use mathlib.Core.List.{List, [], ◌∷◌}
use mathlib.Core.Option.{Option, none, some}
use mathlib.Core.Path.{◌≡◌, refl, sym, ap, subst}
use mathlib.Core.Logic.{◌⊎◌, inl, inr}
use native.Mathlib.Omega.{arith}
use claude_code_gateway.Prelude.Tests.{Comparable, ◌==◌, if◌then◌else◌, Bool-cases}
use claude_code_gateway.Prelude.Lists.{length, In, Distinct}

abbrev pub GoMap {ℓ κ} : Type ℓ → Type κ → Type (ℓ ⊔ κ)
GoMap K V = List (K × V)

pub beq_refl {ℓ} : {K : Type ℓ} ⦃e : Comparable K⦄ (k : K) → (k == k) ≡ true
beq_refl ⦃e⦄ k = (e.same_key_iff k k).1 refl

module _ {ℓ κ} {K : Type ℓ} {V : Type κ} ⦃e : Comparable K⦄ where
  -- `v, ok := m[k]`
  unfoldable pub get : GoMap K V → K → Option V
  get [] k = none
  get ((j, v) ∷ m) k = if j == k then some v else get m k

  -- `m[k] = v`
  unfoldable pub put : GoMap K V → K → V → GoMap K V
  put [] k v = (k, v) ∷ []
  put ((j, w) ∷ m) k v = if j == k then (k, v) ∷ m else (j, w) ∷ put m k v

  -- `delete(m, k)`
  unfoldable pub delete : GoMap K V → K → GoMap K V
  delete [] k = []
  delete ((j, w) ∷ m) k = let rest = delete m k in if j == k then rest else (j, w) ∷ rest

  pub get-put :
      (m : GoMap K V) (k j : K) (v : V) → get (put m k v) j ≡ (if k == j then some v else get m j)
  unfolding get put
  get-put [] k j v = refl
  get-put ((i, w) ∷ m) k j v =
      ground (arith, e.same_key_iff k j, e.same_key_iff i k, e.same_key_iff i j, get-put m k j v)

  pub get-delete :
      (m : GoMap K V) (k j : K) → get (delete m k) j ≡ (if k == j then none else get m j)
  unfolding get delete
  get-delete [] k j = ground arith
  get-delete ((i, w) ∷ m) k j =
      ground (arith, e.same_key_iff k j, e.same_key_iff i k, e.same_key_iff i j, get-delete m k j)

  pub get-put_self : (m : GoMap K V) (k : K) (v : V) → get (put m k v) k ≡ some v
  get-put_self m k v = ground (arith, get-put m k k v, e.same_key_iff k k)

  pub length-put_new :
      (m : GoMap K V) (k : K) (v : V) → get m k ≡ none → length (put m k v) ≡ length m + 1
  unfolding get put
  length-put_new [] k v h = omega arith
  length-put_new ((i, w) ∷ m) k v h = ground (arith, length-put_new m k v)

  pub length-put_old :
      (m : GoMap K V) (k : K) (v w : V) → get m k ≡ some w → length (put m k v) ≡ length m
  unfolding get put
  length-put_old [] k v w h = ground arith
  length-put_old ((i, x) ∷ m) k v w h = ground (arith, length-put_old m k v w)

  pub length-put-le : (m : GoMap K V) (k : K) (v : V) → length (put m k v) ≤ length m + 1
  unfolding put
  length-put-le [] k v = omega arith
  length-put-le ((i, w) ∷ m) k v = ground (arith, length-put-le m k v)

  pub length-delete-le : (m : GoMap K V) (k : K) → length (delete m k) ≤ length m
  unfolding delete
  length-delete-le [] k = omega arith
  length-delete-le ((i, w) ∷ m) k = ground (arith, length-delete-le m k)

-- The keys of a map, in the order of the representation.
abbrev pub keys {ℓ} : {K : Type 0} {V : Type ℓ} → GoMap K V → List K
keys [] = []
keys ((k, v) ∷ m) = k ∷ keys m

module _ {ℓ} {K : Type 0} {V : Type ℓ} ⦃e : Comparable K⦄ where
  pub In-get : (m : GoMap K V) (k : K) (v : V) → get m k ≡ some v → In k (keys m)
  unfolding get
  In-get [] k v h = ground arith
  In-get ((j, w) ∷ m) k v h = elim (Bool-cases (j == k)) [
    | inl same ↦ inl (sym ((e.same_key_iff j k).0 same))
    | inr other ↦ inr (In-get m k v (rw other at h))
  ]

  pub get-In : (m : GoMap K V) (k : K) → In k (keys m) → (v : V) × (get m k ≡ some v)
  unfolding get
  get-In [] k h = elim h [ ]
  get-In ((j, w) ∷ m) k (inl same) = (w, ground (arith, e.same_key_iff j k))
  get-In ((j, w) ∷ m) k (inr later) = elim (Bool-cases (j == k)) [
    | inl same ↦ (w, rw same)
    | inr other ↦ let (v, found) = get-In m k later in (v, rw other found)
  ]

  In-keys-put :
      (m : GoMap K V) (k j : K) (v : V) → In j (keys (put m k v)) → (j ≡ k) ⊎ In j (keys m)
  unfolding put
  In-keys-put [] k j v (inl h) = inl h
  In-keys-put [] k j v (inr h) = elim h [ ]
  In-keys-put ((i, w) ∷ m) k j v h = elim (Bool-cases (i == k)) [
    | inl same ↦ elim (rw same at h) [ inl first ↦ inl first | inr later ↦ inr (inr later) ]
    | inr other ↦ elim (rw other at h) [
      | inl first ↦ inr (inl first)
      | inr later ↦ elim (In-keys-put m k j v later) [ inl new ↦ inl new | inr old ↦ inr (inr old) ]
    ]
  ]

  pub In-keys-delete : (m : GoMap K V) (k j : K) → In j (keys (delete m k)) → In j (keys m)
  unfolding delete
  In-keys-delete [] k j h = h
  In-keys-delete ((i, w) ∷ m) k j h = elim (Bool-cases (i == k)) [
    | inl same ↦ inr (In-keys-delete m k j (rw same at h))
    | inr other ↦ elim (rw other at h) [
      | inl first ↦ inl first
      | inr later ↦ inr (In-keys-delete m k j later)
    ]
  ]

  pub put-Distinct :
      (m : GoMap K V) (k : K) (v : V) → Distinct (keys m) → Distinct (keys (put m k v))
  unfolding put
  put-Distinct [] k v d = ((λ h. h), tt)
  put-Distinct ((i, w) ∷ m) k v d = elim (Bool-cases (i == k)) [
    | inl same ↦
        let e' : i ≡ k = (e.same_key_iff i k).0 same in
        rw same ((λ h. d.0 (subst (λ t. In t (keys m)) (sym e') h)), d.1)
    | inr other ↦ rw other (
      (λ h. elim (In-keys-put m k i v h) [
        | inl same ↦ ground (arith, e.same_key_iff i k)
        | inr later ↦ d.0 later
      ]),
      put-Distinct m k v d.1,
    )
  ]

  pub delete-Distinct : (m : GoMap K V) (k : K) → Distinct (keys m) → Distinct (keys (delete m k))
  unfolding delete
  delete-Distinct [] k d = tt
  delete-Distinct ((i, w) ∷ m) k d = elim (Bool-cases (i == k)) [
    | inl same ↦ rw same (delete-Distinct m k d.1)
    | inr other ↦ rw other ((λ h. d.0 (In-keys-delete m k i h)), delete-Distinct m k d.1)
  ]

pub length-keys {ℓ} : {K : Type 0} {V : Type ℓ} (m : GoMap K V) → length (keys m) ≡ length m
length-keys [] = refl
length-keys ((k, v) ∷ m) = ap suc (length-keys m)
