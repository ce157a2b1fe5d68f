-- ===== src/Base/Predicates.antt =====
-- Predicates on lists, by recursion.
use Prim.Native.Nat.{ℕ, zero, suc}
use mathlib.Core.Path.{◌≡◌, refl}
use mathlib.Core.Bool.{Bool, true}
use mathlib.Core.Logic.{◌⊎◌, ◌≢◌, ◌↔◌, inl, inr}
use mathlib.Core.List.{List, [], ◌∷◌, ◌++◌, map}
use native.Mathlib.Omega.{arith}
use wachen.Base.Tests.{Bool-cases}
use wachen.Base.Lists.{filter, take, includes}
use wachen.Base.Utf16.{Text, text_Eq, text_eq_iff}

module _ {ℓ κ} {A : Type ℓ} (P : A → Type κ) where
  abbrev pub All : List A → Type κ
  All [] = Unit
  All (x ∷ xs) = P x × All xs

-- Membership, with the place kept.
abbrev pub In : {A : Type 0} → A → List A → Type 0
In a [] = ⊥
In a (x ∷ xs) = (x ≡ a) ⊎ In a xs

module _ {ℓ κ μ} {A : Type ℓ} (P : A → Type κ) (Q : A → Type μ) where
  pub All-imp : ((a : A) → P a → Q a) → (xs : List A) → All P xs → All Q xs
  All-imp f [] _ = tt
  All-imp f (x ∷ xs) (h, hs) = (f x h, All-imp f xs hs)

module _ {ℓ κ} {A : Type ℓ} (P : A → Type κ) where
  pub All-append : (xs ys : List A) → All P xs → All P ys → All P (xs ++ ys)
  All-append [] ys _ k = k
  All-append (x ∷ xs) ys (h, hs) k = (h, All-append xs ys hs k)

  pub All-of_append : (xs ys : List A) → All P (xs ++ ys) → All P xs × All P ys
  All-of_append [] ys h = (tt, h)
  All-of_append (x ∷ xs) ys (h, hs) =
      let (first, rest) = All-of_append xs ys hs in ((h, first), rest)

  pub All-take : (n : ℕ) (xs : List A) → All P xs → All P (take n xs)
  All-take zero xs _ = tt
  All-take (suc n) [] _ = tt
  All-take (suc n) (x ∷ xs) (h, hs) = (h, All-take n xs hs)

  pub All-filter : (p : A → Bool) (xs : List A) → All P xs → All P (filter p xs)
  All-filter p [] _ = tt
  All-filter p (x ∷ xs) (h, hs) = elim (Bool-cases (p x)) [
    | inl e ↦ rw e (h, All-filter p xs hs)
    | inr e ↦ rw e (All-filter p xs hs)
  ]

module _ {A : Type 0} where
  pub All-In {κ} : (P : A → Type κ) {a : A} (xs : List A) → All P xs → In a xs → P a
  All-In P [] _ m = absurd m
  All-In P (x ∷ xs) (h, hs) (inl e) = rw e at h
  All-In P (x ∷ xs) (h, hs) (inr m) = All-In P xs hs m

  -- Everything that passes a filter satisfies its test.
  pub filter-All : (p : A → Bool) (xs : List A) → All (λ x. p x ≡ true) (filter p xs)
  filter-All p [] = tt
  filter-All p (x ∷ xs) = elim (Bool-cases (p x)) [
    | inl e ↦ rw e (e, filter-All p xs)
    | inr e ↦ rw e (filter-All p xs)
  ]

  pub In-filter : (p : A → Bool) {a : A} (xs : List A) → In a xs → p a ≡ true → In a (filter p xs)
  In-filter p [] m h = absurd m
  In-filter p {a} (x ∷ xs) (inl e) h = let k : p x ≡ true = rw e h in rw k (inl e)
  In-filter p (x ∷ xs) (inr m) h = elim (Bool-cases (p x)) [
    | inl e ↦ rw e (inr (In-filter p xs m h))
    | inr e ↦ rw e (In-filter p xs m h)
  ]

  pub In-of_filter : (p : A → Bool) (a : A) (xs : List A) → In a (filter p xs) → In a xs
  In-of_filter p a [] m = absurd m
  In-of_filter p a (x ∷ xs) m = elim (Bool-cases (p x)) [
    | inl e ↦ elim (kept e) [ inl h ↦ inl h | inr k ↦ inr (In-of_filter p a xs k) ]
    | inr e ↦ inr (In-of_filter p a xs (rw e at m))
  ]
    where
      kept : p x ≡ true → (x ≡ a) ⊎ In a (filter p xs)
      kept e = rw e at m

  pub In-filter-test : (p : A → Bool) (a : A) (xs : List A) → In a (filter p xs) → p a ≡ true
  In-filter-test p a xs m = All-In (λ x. p x ≡ true) (filter p xs) (filter-All p xs) m

-- No two elements are equal.
abbrev pub Distinct {ℓ} : {A : Type ℓ} → List A → Type ℓ
Distinct [] = Unit
Distinct (x ∷ xs) = All (λ y. y ≢ x) xs × Distinct xs

-- The elements correspond one to one, in order.
abbrev pub Pairs : {A B : Type 0} → (A → B → Type 0) → List A → List B → Type 0
Pairs R [] [] = Unit
Pairs R (x ∷ xs) (y ∷ ys) = R x y × Pairs R xs ys
Pairs R _ _ = ⊥

pub In-filter_iff :
    {A : Type 0} (p : A → Bool) (P : A → Type 0)
    → ((a : A) → (p a ≡ true) ↔ P a)
    → (a : A) (xs : List A) → In a (filter p xs) ↔ (In a xs × P a)
In-filter_iff p P e a xs = (
  λ m. (In-of_filter p a xs m, (e a).0 (In-filter-test p a xs m)),
  λ h. In-filter p xs h.0 ((e a).1 h.1),
)

pub All-of_In {κ} :
    {A : Type 0} (P : A → Type κ) (xs : List A) → ((a : A) → In a xs → P a) → All P xs
All-of_In P [] f = tt
All-of_In P (x ∷ xs) f = (f x (inl refl), All-of_In P xs (λ a m. f a (inr m)))

pub map-Pairs :
    {A B C : Type 0} (R : A → B → Type 0) (f : A → C) (g : B → C)
    → ((a : A) (b : B) → R a b → f a ≡ g b)
    → (xs : List A) (ys : List B) → Pairs R xs ys
    → map f xs ≡ map g ys
map-Pairs R f g e [] [] h = refl
map-Pairs R f g e [] (y ∷ ys) h = absurd h
map-Pairs R f g e (x ∷ xs) [] h = absurd h
map-Pairs R f g e (x ∷ xs) (y ∷ ys) (h, hs) = cc (e x y h, map-Pairs R f g e xs ys hs)

pub includes_iff : (a : Text) (xs : List Text) → (includes a xs ≡ true) ↔ In a xs
includes_iff a [] = (λ e. cc, λ m. absurd m)
includes_iff a (x ∷ xs) = ground (arith, text_eq_iff x a, includes_iff a xs)

pub All-map {κ} :
    {A B : Type 0} (P : B → Type κ) (f : A → B) (xs : List A)
    → All (λ x. P (f x)) xs
    → All P (map f xs)
All-map P f [] h = tt
All-map P f (x ∷ xs) (h, hs) = (h, All-map P f xs hs)
