-- ===== src/Prelude/Arranges.antt =====
-- Two lists with the same elements, where the second has no repetition if the first has none.
use mathlib.Core.Logic.{inl, inr}
use mathlib.Core.List.{List, [], ◌∷◌, ◌++◌}
use mathlib.Core.Path.{sym}
use claude_code_gateway.Prelude.Lists.{In, Distinct}

pub record Arranges {A : Type 0} (xs ys : List A) : Type 0 where
  pub into : (a : A) → In a xs → In a ys
  pub back : (a : A) → In a ys → In a xs
  pub distinct : Distinct xs → Distinct ys

module _ {A : Type 0} where
  pub Arranges-refl : (xs : List A) → Arranges xs xs
  Arranges-refl xs = record { into = λ a m. m; back = λ a m. m; distinct = λ d. d }

  pub Arranges-trans : (xs ys zs : List A) → Arranges xs ys → Arranges ys zs → Arranges xs zs
  Arranges-trans xs ys zs f g = record {
    into = λ a m. g.into a (f.into a m);
    back = λ a m. f.back a (g.back a m);
    distinct = λ d. g.distinct (f.distinct d);
  }

  pub Arranges-cons : (x : A) (xs ys : List A) → Arranges xs ys → Arranges (x ∷ xs) (x ∷ ys)
  Arranges-cons x xs ys f = record {
    into = λ a m. elim m [ inl here ↦ inl here | inr later ↦ inr (f.into a later) ];
    back = λ a m. elim m [ inl here ↦ inl here | inr later ↦ inr (f.back a later) ];
    distinct = λ d. ((λ m. d.0 (f.back x m)), f.distinct d.1);
  }

  pub Arranges-swap : (x y : A) (xs : List A) → Arranges (x ∷ y ∷ xs) (y ∷ x ∷ xs)
  Arranges-swap x y xs = record {
    into = swapped x y;
    back = swapped y x;
    distinct = λ d. (
      (λ m. elim m [ inl same ↦ d.0 (inl (sym same)) | inr later ↦ d.1.0 later ]),
      ((λ m. d.0 (inr m)), d.1.1),
    );
  }
    where
      swapped : (x y a : A) → In a (x ∷ y ∷ xs) → In a (y ∷ x ∷ xs)
      swapped x y a (inl first) = inr (inl first)
      swapped x y a (inr (inl second)) = inl second
      swapped x y a (inr (inr later)) = inr (inr later)

  pub Arranges-middle : (x : A) (xs ys : List A) → Arranges (x ∷ (xs ++ ys)) (xs ++ x ∷ ys)
  Arranges-middle x [] ys = Arranges-refl (x ∷ ys)
  Arranges-middle x (y ∷ xs) ys =
      Arranges-trans _ _ _ (Arranges-swap x y (xs ++ ys))
        (Arranges-cons y _ _ (Arranges-middle x xs ys))
