-- ===== src/Drawer/Counts.antt =====
-- What the numbers of the panel of a store count.
use wachen.Base.{
  ◌≡◌, refl, ◌∙◌, ap, ℕ, suc, ◌+◌, List, [], ◌∷◌, map, Bool, true, false, Text, text_Eq, nat_eq,
  ◌==◌, arith, ◌≤◌, ltb, cnt, length, sum, sum-put, get, put, or_else, leb, ◌&&◌, if◌then◌else◌,
  Bool-cases, Option-cases, inl, inr,
}
use wachen.Base.Sort.{sum-sort}
use wachen.Domain.{negative, sentiment_Eq}
use wachen.Case.{WaCase}
use wachen.Charts.{total_of}
use wachen.Stats.{tally_from, tally_cases, more_first, category_counts}
use wachen.Drawer.StoreDrawer.{hour_row, hour_rows, open_hours, category_rows, colored_from}

module _ {A B : Type 0} (P : A → B → Bool) where
  one_more :
      (a : A) (xs : List A) (bs : List B)
      → sum (λ b. cnt (λ x. P x b) (a ∷ xs)) bs ≡ cnt (P a) bs + sum (λ b. cnt (λ x. P x b) xs) bs
  one_more a xs [] = omega arith
  one_more a xs (b ∷ bs) = elim (Bool-cases (P a b)) [
    | inl e ↦ ground (arith, one_more a xs bs, e)
    | inr e ↦ ground (arith, one_more a xs bs, e)
  ]

  no_more : (bs : List B) → sum (λ b. cnt (λ x. P x b) []) bs ≡ 0
  no_more [] = refl
  no_more (b ∷ bs) = omega (arith, no_more bs)

  -- The pairs that pass a test, counted by the one or by the other.
  sum-cnt :
      (xs : List A) (bs : List B) → sum (λ b. cnt (λ x. P x b) xs) bs ≡ sum (λ x. cnt (P x) bs) xs
  sum-cnt [] bs = no_more bs
  sum-cnt (a ∷ xs) bs = one_more a xs bs ∙ ap (λ n. cnt (P a) bs + n) (sum-cnt xs bs)

sum-map :
    {A B : Type 0} (f : A → B) (g : B → ℕ) (xs : List A) → sum g (map f xs) ≡ sum (λ x. g (f x)) xs
sum-map f g [] = refl
sum-map f g (x ∷ xs) = ap (λ n. g (f x) + n) (sum-map f g xs)

-- The hours of the rows follow one another from `low` to before `top`.
abbrev Run : ℕ → ℕ → List (ℕ × Text) → Type 0
Run low top [] = low ≡ top
Run low top (h ∷ hs) = (h.0 ≡ low) × Run (suc low) top hs

Run-le : (low top : ℕ) (hs : List (ℕ × Text)) → Run low top hs → low ≤ top
Run-le low top [] h = omega arith
Run-le low top (x ∷ hs) (e, h) = omega (arith, Run-le (suc low) top hs h)

abbrev one_if : Bool → ℕ
one_if b = if b then 1 else 0

cnt-Run :
    (hour low top : ℕ) (hs : List (ℕ × Text))
    → Run low top hs
    → cnt (λ h. hour == h.0) hs ≡ one_if (leb low hour && ltb hour top)
cnt-Run hour low top [] h = ground (arith, h)
cnt-Run hour low top (x ∷ hs) (e, h) =
    ground (arith, e, cnt-Run hour (suc low) top hs h, Run-le (suc low) top hs h)

-- A negative case of an hour from 11 to 21.
abbrev pub in_open_hours : WaCase → Bool
in_open_hours c = leb 11 c.hour && ltb c.hour 22 && c.sentiment == negative

cnt-none : {A : Type 0} (p : A → Bool) (xs : List A) → cnt (λ x. p x && false) xs ≡ 0
cnt-none p [] = refl
cnt-none p (x ∷ xs) = ground (arith, cnt-none p xs)

cnt-all : {A : Type 0} (p : A → Bool) (xs : List A) → cnt (λ x. p x && true) xs ≡ cnt p xs
cnt-all p [] = refl
cnt-all p (x ∷ xs) = ground (arith, cnt-all p xs)

one_hour :
    (hour : ℕ) (bad : Bool) (hs : List (ℕ × Text))
    → Run 11 22 hs
    → cnt (λ h. hour == h.0 && bad) hs ≡ one_if (leb 11 hour && ltb hour 22 && bad)
one_hour hour true hs r = ground (arith, cnt-all (λ h. hour == h.0) hs, cnt-Run hour 11 22 hs r)
one_hour hour false hs r = ground (arith, cnt-none (λ h. hour == h.0) hs)

cnt-sum : {A : Type 0} (p : A → Bool) (xs : List A) → sum (λ x. one_if (p x)) xs ≡ cnt p xs
cnt-sum p [] = refl
cnt-sum p (x ∷ xs) = ground (arith, cnt-sum p xs)

hours-total :
    (cs : List WaCase) (hs : List (ℕ × Text))
    → Run 11 22 hs
    → sum (λ c. cnt (λ h. c.hour == h.0 && c.sentiment == negative) hs) cs ≡ cnt in_open_hours cs
hours-total [] hs r = refl
hours-total (c ∷ cs) hs r =
    ground (arith, one_hour c.hour (c.sentiment == negative) hs r, hours-total cs hs r)

hour_rows-total : (cs : List WaCase) → total_of (hour_rows cs) ≡ cnt in_open_hours cs
unfolding hour_rows
hour_rows-total cs =
    sum-map (hour_row cs) (λ r. r.v) open_hours
    ∙ sum-cnt (λ c h. c.hour == h.0 && c.sentiment == negative) cs open_hours
    ∙ hours-total cs open_hours
        (refl, (refl, (refl, (refl, (refl, (refl, (refl, (refl, (refl, (refl, (refl, refl)))))))))))

tally_from-total :
    (m : List (Text × ℕ)) (ks : List Text)
    → sum (λ e. e.1) (tally_from m ks) ≡ sum (λ e. e.1) m + length ks
unfolding tally_from
tally_from-total m [] = omega arith
tally_from-total m (k ∷ ks) =
    let old = or_else (get k m) 0 in
    ground (
      arith,
      tally_from-total (put k (old + 1) m) ks,
      sum-put (λ n. n) k (old + 1) m,
      Option-cases (get k m),
    )

tally_cases-total :
    (m : List (Text × ℕ)) (cs : List WaCase)
    → sum (λ e. e.1) (tally_cases (λ c. c.categories) m cs)
      ≡ sum (λ e. e.1) m + sum (λ c. length c.categories) cs
unfolding tally_cases
tally_cases-total m [] = omega arith
tally_cases-total m (c ∷ cs) =
    omega (arith, tally_cases-total (tally_from m c.categories) cs, tally_from-total m c.categories)

colored-total : (i : ℕ) (xs : List (Text × ℕ)) → total_of (colored_from i xs) ≡ sum (λ e. e.1) xs
unfolding colored_from
colored-total i [] = refl
colored-total i (x ∷ xs) = ap (λ n. x.1 + n) (colored-total (suc i) xs)

category_rows-total :
    (cs : List WaCase) → total_of (category_rows cs) ≡ sum (λ c. length c.categories) cs
unfolding category_rows category_counts
category_rows-total cs =
    let t = tally_cases (λ c. c.categories) [] cs in
    omega (
      arith,
      colored-total 0 (category_counts cs),
      sum-sort more_first (λ e. e.1) t,
      tally_cases-total [] cs,
    )

-- The numbers of the rows that the panel draws for the cases of a store: those of the categories add up
-- to the marks that the cases bear, and those of the hours to the negative cases from 11:00 to 21:59.
rows-total :
    (cs : List WaCase)
    → (total_of (category_rows cs) ≡ sum (λ c. length c.categories) cs)
      × (total_of (hour_rows cs) ≡ cnt in_open_hours cs)
rows-total cs = (category_rows-total cs, hour_rows-total cs)
