-- ===== src/Base/Pairs.antt =====
-- Two lists whose elements belong together pair by pair, under filters and sorts.
use Prim.Native.Nat.{ℕ, zero, suc}
use mathlib.Core.Path.{◌≡◌, refl, ap, ◌∙◌}
use mathlib.Core.Bool.{Bool}
use mathlib.Core.Logic.{inl, inr}
use mathlib.Core.List.{List, [], ◌∷◌}
use wachen.Base.Tests.{Bool-cases}
use wachen.Base.Lists.{filter, take, length}
use wachen.Base.Sort.{insert, sort}
use wachen.Base.Predicates.{Pairs}

module _ {A B : Type 0} (R : A → B → Type 0) where
  pub take-Pairs :
      (n : ℕ) (xs : List A) (ys : List B) → Pairs R xs ys → Pairs R (take n xs) (take n ys)
  take-Pairs zero xs ys h = tt
  take-Pairs (suc n) [] [] h = tt
  take-Pairs (suc n) [] (y ∷ ys) h = absurd h
  take-Pairs (suc n) (x ∷ xs) [] h = absurd h
  take-Pairs (suc n) (x ∷ xs) (y ∷ ys) (h, hs) = (h, take-Pairs n xs ys hs)

  pub length-Pairs : (xs : List A) (ys : List B) → Pairs R xs ys → length xs ≡ length ys
  length-Pairs [] [] h = refl
  length-Pairs [] (y ∷ ys) h = absurd h
  length-Pairs (x ∷ xs) [] h = absurd h
  length-Pairs (x ∷ xs) (y ∷ ys) (h, hs) = ap suc (length-Pairs xs ys hs)

  pub filter-Pairs :
      (p : A → Bool) (q : B → Bool)
      → ((a : A) (b : B) → R a b → p a ≡ q b)
      → (xs : List A) (ys : List B) → Pairs R xs ys
      → Pairs R (filter p xs) (filter q ys)
  filter-Pairs p q same [] [] h = tt
  filter-Pairs p q same [] (y ∷ ys) h = absurd h
  filter-Pairs p q same (x ∷ xs) [] h = absurd h
  filter-Pairs p q same (x ∷ xs) (y ∷ ys) (h, hs) = elim (Bool-cases (q y)) [
    | inl e ↦ rw (e, same x y h ∙ e) (h, filter-Pairs p q same xs ys hs)
    | inr e ↦ rw (e, same x y h ∙ e) (filter-Pairs p q same xs ys hs)
  ]

  module _ (f : A → A → Bool) (g : B → B → Bool)
      (same : (a a' : A) (b b' : B) → R a b → R a' b' → f a a' ≡ g b b') where
    insert-Pairs :
        (x : A) (y : B) (xs : List A) (ys : List B)
        → R x y
        → Pairs R xs ys
        → Pairs R (insert f x xs) (insert g y ys)
    insert-Pairs x y [] [] h hs = (h, tt)
    insert-Pairs x y [] (b ∷ ys) h hs = absurd hs
    insert-Pairs x y (a ∷ xs) [] h hs = absurd hs
    insert-Pairs x y (a ∷ xs) (b ∷ ys) h (k, ks) = elim (Bool-cases (g b y)) [
      | inl e ↦ rw (e, same a x b y k h ∙ e) (k, insert-Pairs x y xs ys h ks)
      | inr e ↦ rw (e, same a x b y k h ∙ e) (h, (k, ks))
    ]

    pub sort-Pairs : (xs : List A) (ys : List B) → Pairs R xs ys → Pairs R (sort f xs) (sort g ys)
    unfolding sort
    sort-Pairs [] [] h = tt
    sort-Pairs [] (y ∷ ys) h = absurd h
    sort-Pairs (x ∷ xs) [] h = absurd h
    sort-Pairs (x ∷ xs) (y ∷ ys) (h, hs) =
        insert-Pairs x y (sort f xs) (sort g ys) h (sort-Pairs xs ys hs)
