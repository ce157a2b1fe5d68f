-- ===== src/Base/Sort.antt =====
-- `Array.prototype.sort`: stable, by a test that says whether `a` must stand before `b` (the
-- comparison of the two is negative).
use mathlib.Core.List.{Perm}
use mathlib.Core.List.Perm
use Prim.Native.Nat.{ℕ, zero, suc, ◌+◌}
use mathlib.Core.Path.{◌≡◌, refl, ◌∙◌, ap}
use mathlib.Core.Logic.{inl, inr}
use mathlib.Core.Bool.{Bool, true, false}
use mathlib.Core.List.{List, [], ◌∷◌, map}
use native.Mathlib.Omega.{arith}
use wachen.Base.Tests.{if◌then◌else◌, Bool-cases}
use wachen.Base.Lists.{filter, length, cnt, sum, take}
use wachen.Base.Predicates.{All, All-imp, All-take, All-map, In, All-In, All-of_In}

-- What a comparison has to satisfy for the order of the result to be specified.
pub record IsConsistent {ℓ} {A : Type ℓ} (before : A → A → Bool) : Type ℓ where
  pub asym : (a b : A) → before a b ≡ true → before b a ≡ false
  pub cotrans : (a b c : A) → before a b ≡ false → before b c ≡ false → before a c ≡ false

module _ {ℓ} {A : Type ℓ} (before : A → A → Bool) where
  abbrev pub insert : A → List A → List A
  insert x [] = x ∷ []
  insert x (y ∷ ys) = if before y x then y ∷ insert x ys else x ∷ y ∷ ys

  unfoldable pub sort : List A → List A
  sort [] = []
  sort (x ∷ xs) = insert x (sort xs)

  -- No element must stand before an earlier one.
  abbrev pub IsSorted : List A → Type ℓ
  IsSorted [] = Unit
  IsSorted (x ∷ xs) = All (λ y. before y x ≡ false) xs × IsSorted xs

module _ {ℓ} {A : Type ℓ} (before : A → A → Bool) where
  insert-perm : (x : A) (ys : List A) → Perm (insert before x ys) (x ∷ ys)
  insert-perm x [] = Perm.refl _
  insert-perm x (y ∷ ys) = elim (Bool-cases (before y x)) [
    | inl e ↦ rw e (Perm.trans (Perm.cons y (insert-perm x ys)) (Perm.swap x y ys))
    | inr e ↦ rw e (Perm.refl _)
  ]

  pub sort-perm : (xs : List A) → Perm (sort before xs) xs
  unfolding sort
  sort-perm [] = Perm.refl _
  sort-perm (x ∷ xs) = Perm.trans (insert-perm x (sort before xs)) (Perm.cons x (sort-perm xs))

  insert-All {κ} :
      (P : A → Type κ) (x : A) (ys : List A) → P x → All P ys → All P (insert before x ys)
  insert-All P x [] h _ = (h, tt)
  insert-All P x (y ∷ ys) h (k, ks) = elim (Bool-cases (before y x)) [
    | inl e ↦ rw e (k, insert-All P x ys h ks)
    | inr e ↦ rw e (h, (k, ks))
  ]

  pub sort-All {κ} : (P : A → Type κ) (xs : List A) → All P xs → All P (sort before xs)
  unfolding sort
  sort-All P [] h = tt
  sort-All P (x ∷ xs) (h, hs) = insert-All P x (sort before xs) h (sort-All P xs hs)

  insert-IsSorted :
      IsConsistent before
      → (x : A) (ys : List A) → IsSorted before ys
      → IsSorted before (insert before x ys)
  insert-IsSorted c x [] _ = (tt, tt)
  insert-IsSorted c x (y ∷ ys) (h, s) = elim (Bool-cases (before y x)) [
    | inl e ↦
        rw e (insert-All (λ z. before z y ≡ false) x ys (c.asym y x e) h, insert-IsSorted c x ys s)
    | inr e ↦ rw e ((e, All-imp _ _ (λ z k. c.cotrans z y x k e) ys h), (h, s))
  ]

  pub sort-IsSorted : IsConsistent before → (xs : List A) → IsSorted before (sort before xs)
  unfolding sort
  sort-IsSorted c [] = tt
  sort-IsSorted c (x ∷ xs) = insert-IsSorted c x (sort before xs) (sort-IsSorted c xs)

  module _ (p : A → Bool) (tied : (x y : A) → p x ≡ true → p y ≡ true → before x y ≡ false) where
    filter-insert : (x : A) (ys : List A) → filter p (insert before x ys) ≡ filter p (x ∷ ys)
    filter-insert x [] = refl
    filter-insert x (y ∷ ys) = ground (arith, tied y x, filter-insert x ys)

    -- Elements that compare equal keep their order.
    pub sort_stable : (xs : List A) → filter p (sort before xs) ≡ filter p xs
    unfolding sort
    sort_stable [] = refl
    sort_stable (x ∷ xs) = ground (arith, filter-insert x (sort before xs), sort_stable xs)

  cnt-insert : (p : A → Bool) (x : A) (ys : List A) → cnt p (insert before x ys) ≡ cnt p (x ∷ ys)
  cnt-insert p x [] = refl
  cnt-insert p x (y ∷ ys) = ground (arith, cnt-insert p x ys)

  pub cnt-sort : (p : A → Bool) (xs : List A) → cnt p (sort before xs) ≡ cnt p xs
  unfolding sort
  cnt-sort p [] = refl
  cnt-sort p (x ∷ xs) = ground (arith, cnt-insert p x (sort before xs), cnt-sort p xs)

  length-insert : (x : A) (ys : List A) → length (insert before x ys) ≡ length (x ∷ ys)
  length-insert x [] = refl
  length-insert x (y ∷ ys) = ground (arith, length-insert x ys)

  pub length-sort : (xs : List A) → length (sort before xs) ≡ length xs
  unfolding sort
  length-sort [] = refl
  length-sort (x ∷ xs) = length-insert x (sort before xs) ∙ ap suc (length-sort xs)

module _ {A : Type 0} (before : A → A → Bool) where
  insert-In : (a x : A) (ys : List A) → In a (x ∷ ys) → In a (insert before x ys)
  insert-In a x [] m = m
  insert-In a x (y ∷ ys) m = elim (Bool-cases (before y x)) [
    | inl e ↦ rw e (elim m [
      | inl p ↦ inr (insert-In a x ys (inl p))
      | inr m' ↦ elim m' [ inl q ↦ inl q | inr r ↦ inr (insert-In a x ys (inr r)) ]
    ])
    | inr e ↦ rw e m
  ]

  -- Sorting loses nothing and adds nothing.
  pub sort-In : (a : A) (xs : List A) → In a xs → In a (sort before xs)
  unfolding sort
  sort-In a [] m = absurd m
  sort-In a (x ∷ xs) (inl p) = insert-In a x (sort before xs) (inl p)
  sort-In a (x ∷ xs) (inr m) = insert-In a x (sort before xs) (inr (sort-In a xs m))

  pub In-sort : (a : A) (xs : List A) → In a (sort before xs) → In a xs
  In-sort a xs m =
      All-In (λ y. In y xs) (sort before xs)
        (sort-All before (λ y. In y xs) xs (All-of_In (λ y. In y xs) xs (λ y k. k))) m

module _ {ℓ} {A : Type ℓ} (before : A → A → Bool) (f : A → ℕ) where
  sum-insert : (x : A) (ys : List A) → sum f (insert before x ys) ≡ f x + sum f ys
  sum-insert x [] = refl
  sum-insert x (y ∷ ys) = ground (arith, sum-insert x ys)

  pub sum-sort : (xs : List A) → sum f (sort before xs) ≡ sum f xs
  unfolding sort
  sum-sort [] = refl
  sum-sort (x ∷ xs) = omega (arith, sum-insert x (sort before xs), sum-sort xs)

module _ {A : Type 0} (before : A → A → Bool) where
  pub IsSorted-take : (n : ℕ) (xs : List A) → IsSorted before xs → IsSorted before (take n xs)
  IsSorted-take zero xs h = tt
  IsSorted-take (suc n) [] h = tt
  IsSorted-take (suc n) (x ∷ xs) (h, hs) =
      (All-take (λ y. before y x ≡ false) n xs h, IsSorted-take n xs hs)

pub IsSorted-map :
    {A B : Type 0} (before : B → B → Bool) (f : A → B) (xs : List A)
    → IsSorted (λ a b. before (f a) (f b)) xs
    → IsSorted before (map f xs)
IsSorted-map before f [] h = tt
IsSorted-map before f (x ∷ xs) (h, hs) =
    (All-map (λ y. before y (f x) ≡ false) f xs h, IsSorted-map before f xs hs)
