-- ===== src/Prelude/Lists.antt =====
-- Lists measured and indexed by native numbers, under the names of the library.
use Prim.Native.Nat.{ℕ, zero, suc, ◌+◌, ◌-◌, ◌≤◌, ◌<◌}
use mathlib.Core.List.{List, [], ◌∷◌, ◌++◌, map}
use mathlib.Core.Logic.{◌≢◌, ◌⊎◌, inl, inr}
use mathlib.Core.Option.{Option, none, some}
use mathlib.Core.Path.{◌≡◌, refl, ap, sym, subst, ◌∙◌}
use native.Mathlib.Omega.{arith}

module _ {ℓ} {A : Type ℓ} where
  abbrev pub length : List A → ℕ
  length [] = 0
  length (x ∷ xs) = suc (length xs)

  abbrev pub get_elem? : List A → ℕ → Option A
  get_elem? [] i = none
  get_elem? (x ∷ xs) zero = some x
  get_elem? (x ∷ xs) (suc i) = get_elem? xs i

  -- A write out of bounds changes nothing.
  abbrev pub set : List A → ℕ → A → List A
  set [] i v = []
  set (x ∷ xs) zero v = v ∷ xs
  set (x ∷ xs) (suc i) v = x ∷ set xs i v

  abbrev pub take : ℕ → List A → List A
  take zero xs = []
  take (suc n) [] = []
  take (suc n) (x ∷ xs) = x ∷ take n xs

  abbrev pub drop : ℕ → List A → List A
  drop zero xs = xs
  drop (suc n) [] = []
  drop (suc n) (x ∷ xs) = drop n xs

  abbrev pub All {κ} : (A → Type κ) → List A → Type κ
  All P [] = Unit
  All P (x ∷ xs) = P x × All P xs

module _ {ℓ} {A : Type ℓ} where
  pub length-append : (xs ys : List A) → length (xs ++ ys) ≡ length xs + length ys
  length-append [] ys = omega arith
  length-append (x ∷ xs) ys = omega (arith, length-append xs ys)

  pub length-set : (xs : List A) (i : ℕ) (v : A) → length (set xs i v) ≡ length xs
  length-set [] i v = refl
  length-set (x ∷ xs) zero v = refl
  length-set (x ∷ xs) (suc i) v = ap suc (length-set xs i v)

  pub length-take : (n : ℕ) (xs : List A) → n ≤ length xs → length (take n xs) ≡ n
  length-take zero xs h = omega arith
  length-take (suc n) [] h = absurd (omega arith)
  length-take (suc n) (x ∷ xs) h = omega (arith, length-take n xs (omega arith))

  pub length-drop : (n : ℕ) (xs : List A) → length (drop n xs) ≡ length xs - n
  length-drop zero xs = omega arith
  length-drop (suc n) [] = omega arith
  length-drop (suc n) (x ∷ xs) = omega (arith, length-drop n xs)

  pub drop-append : (n : ℕ) (xs ys : List A) → n ≤ length xs → drop n (xs ++ ys) ≡ drop n xs ++ ys
  drop-append zero xs ys h = refl
  drop-append (suc n) [] ys h = absurd (omega arith)
  drop-append (suc n) (x ∷ xs) ys h = drop-append n xs ys (omega arith)

  pub drop-drop_one : (n : ℕ) (xs : List A) → drop 1 (drop n xs) ≡ drop (suc n) xs
  drop-drop_one zero xs = refl
  drop-drop_one (suc n) [] = refl
  drop-drop_one (suc n) (x ∷ xs) = drop-drop_one n xs

  pub take-append-drop : (n : ℕ) (xs : List A) → take n xs ++ drop n xs ≡ xs
  take-append-drop zero xs = refl
  take-append-drop (suc n) [] = refl
  take-append-drop (suc n) (x ∷ xs) = rw (take-append-drop n xs)

  -- An index in range reads an element.
  pub get_elem?_total : (xs : List A) (i : ℕ) → i < length xs → (x : A) × (get_elem? xs i ≡ some x)
  get_elem?_total [] i h = elim h [ ]
  get_elem?_total (x ∷ xs) zero h = (x, refl)
  get_elem?_total (x ∷ xs) (suc i) h = get_elem?_total xs i (omega arith)

  pub get_elem?-set_self :
      (xs : List A) (i : ℕ) (v : A) → i < length xs → get_elem? (set xs i v) i ≡ some v
  get_elem?-set_self [] i v h = elim h [ ]
  get_elem?-set_self (x ∷ xs) zero v h = refl
  get_elem?-set_self (x ∷ xs) (suc i) v h = get_elem?-set_self xs i v (omega arith)

  pub get_elem?-set_ne :
      (xs : List A) {i j : ℕ} (v : A) → i ≢ j → get_elem? (set xs i v) j ≡ get_elem? xs j
  get_elem?-set_ne [] v h = refl
  get_elem?-set_ne (x ∷ xs) {i = zero} {j = zero} v h = absurd (h refl)
  get_elem?-set_ne (x ∷ xs) {i = zero} {j = suc j} v h = refl
  get_elem?-set_ne (x ∷ xs) {i = suc i} {j = zero} v h = refl
  get_elem?-set_ne (x ∷ xs) {i = suc i} {j = suc j} v h = get_elem?-set_ne xs v (λ e. h (ap suc e))

  pub map-set {κ} :
      {B : Type κ} (f : A → B) (xs : List A) (i : ℕ) (v w : A)
      → get_elem? xs i ≡ some w
      → f v ≡ f w
      → map f (set xs i v) ≡ map f xs
  map-set f [] i v w g e = refl
  map-set f (x ∷ xs) zero v w g e = ground arith
  map-set f (x ∷ xs) (suc i) v w g e = ap (◌∷◌ (f x)) (map-set f xs i v w g e)

  pub All-append {κ} : (P : A → Type κ) (xs ys : List A) → All P xs → All P ys → All P (xs ++ ys)
  All-append P [] ys h k = k
  All-append P (x ∷ xs) ys h k = (h.0, All-append P xs ys h.1 k)

-- Membership, by recursion.
module _ {A : Type 0} where
  abbrev pub In : A → List A → Type 0
  In a [] = ⊥
  In a (x ∷ xs) = (a ≡ x) ⊎ In a xs

  pub In-append_left : (a : A) (xs ys : List A) → In a xs → In a (xs ++ ys)
  In-append_left a [] ys h = elim h [ ]
  In-append_left a (x ∷ xs) ys (inl e) = inl e
  In-append_left a (x ∷ xs) ys (inr h) = inr (In-append_left a xs ys h)

  pub In-append_right : (a : A) (xs ys : List A) → In a ys → In a (xs ++ ys)
  In-append_right a [] ys h = h
  In-append_right a (x ∷ xs) ys h = inr (In-append_right a xs ys h)

  pub In-append : (a : A) (xs ys : List A) → In a (xs ++ ys) → In a xs ⊎ In a ys
  In-append a [] ys h = inr h
  In-append a (x ∷ xs) ys (inl e) = inl (inl e)
  In-append a (x ∷ xs) ys (inr h) = elim (In-append a xs ys h) [
    | inl l ↦ inl (inr l)
    | inr r ↦ inr r
  ]

  pub All-In {κ} : (P : A → Type κ) (xs : List A) → ((a : A) → In a xs → P a) → All P xs
  All-In P [] h = tt
  All-In P (x ∷ xs) h = (h x (inl refl), All-In P xs (λ a m. h a (inr m)))

  pub In-All {κ} : (P : A → Type κ) (a : A) (xs : List A) → All P xs → In a xs → P a
  In-All P a [] h m = elim m [ ]
  In-All P a (x ∷ xs) h (inl e) = subst P (sym e) h.0
  In-All P a (x ∷ xs) h (inr m) = In-All P a xs h.1 m

  abbrev pub Distinct : List A → Type 0
  Distinct [] = Unit
  Distinct (x ∷ xs) = (¬ In x xs) × Distinct xs

  -- A list with one occurrence of `a` taken out.
  In-split :
      (a : A) (ys : List A)
      → In a ys
      → (zs : List A) × (length ys ≡ suc (length zs)) × ((b : A) → In b ys → (b ≡ a) ⊎ In b zs)
  In-split a [] h = elim h [ ]
  In-split a (y ∷ ys) (inl e) =
      (ys, refl, λ b h. elim h [ inl f ↦ inl (f ∙ sym e) | inr g ↦ inr g ])
  In-split a (y ∷ ys) (inr h) =
      let (zs, len, out) = In-split a ys h in
      (
        y ∷ zs,
        ap suc len,
        λ b k. elim k [
          | inl f ↦ inr (inl f)
          | inr g ↦ elim (out b g) [ inl same ↦ inl same | inr m ↦ inr (inr m) ]
        ],
      )

  -- Distinct elements that all stand in a list are no more than its elements.
  pub length-le_of_Distinct :
      (xs ys : List A) → Distinct xs → ((a : A) → In a xs → In a ys) → length xs ≤ length ys
  length-le_of_Distinct [] ys d h = omega arith
  length-le_of_Distinct (x ∷ xs) ys d h =
      let (zs, len, out) = In-split x ys (h x (inl refl)) in
      let still : (a : A) → In a xs → In a zs = λ a m. elim (out a (h a (inr m))) [
        | inl same ↦ absurd (d.0 (subst (λ t. In t xs) same m))
        | inr k ↦ k
      ] in
      omega (arith, length-le_of_Distinct xs zs d.1 still)

  pub Distinct-snoc : (xs : List A) (x : A) → Distinct xs → ¬ In x xs → Distinct (xs ++ x ∷ [])
  Distinct-snoc [] x d n = ((λ h. h), tt)
  Distinct-snoc (y ∷ xs) x d n = (
    (λ h. elim (In-append y xs (x ∷ []) h) [
      | inl here ↦ d.0 here
      | inr last ↦ elim last [ inl e ↦ n (inl (sym e)) | inr impossible ↦ impossible ]
    ]),
    Distinct-snoc xs x d.1 (λ h. n (inr h)),
  )

  -- A cut from the front keeps the last element.
  pub In-drop_last : (n : ℕ) (xs : List A) (x : A) → n ≤ length xs → In x (drop n (xs ++ x ∷ []))
  In-drop_last zero xs x h = In-append_right x xs (x ∷ []) (inl refl)
  In-drop_last (suc n) [] x h = absurd (omega arith)
  In-drop_last (suc n) (y ∷ xs) x h = In-drop_last n xs x (omega arith)
