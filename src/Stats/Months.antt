-- ===== src/Stats/Months.antt =====
-- What the monthly statistics count.
use wachen.Base.{
  ◌+◌, ◌<◌, ◌≡◌, refl, ap, ◌↔◌, Bool, ◌&&◌, List, [], ◌∷◌, map, Text, text_Eq, text_eq, text_eq_iff,
  arith, get, put, get-put, or_else, cnt, Option-cases, Bool-cases, inl, inr, All-put, get-All,
  Distinct-put, get-In, In-get, if◌then◌else◌,
}
use wachen.Base.Predicates.{All, In, Distinct}
use wachen.Base.Sort.{IsConsistent, IsSorted, sort-IsSorted, sort-In, In-sort}
use wachen.Case.{WaCase}
use wachen.Stats.{Month, no_month, is_negative, count_month, month_of, months_from, monthly}

abbrev pub in_month : Text → WaCase → Bool
in_month k c = text_eq (month_of c) k

abbrev month_at : Text → List (Text × Month) → Month
month_at k m = or_else (get k m) no_month

month_at-put :
    (k : Text) (c : WaCase) (m : List (Text × Month))
    → month_at k (put (month_of c) (count_month c (month_at (month_of c) m)) m)
      ≡ (if in_month k c then count_month c (month_at k m) else month_at k m)
month_at-put k c m = elim (Bool-cases (text_eq (month_of c) k)) [
  | inl e ↦
      let same : month_of c ≡ k = (text_eq_iff (month_of c) k).0 e in
      rw (get-put (month_of c) k (count_month c (month_at (month_of c) m)) m, e)
        (ap (λ j. count_month c (month_at j m)) same)
  | inr e ↦ rw (get-put (month_of c) k (count_month c (month_at (month_of c) m)) m, e) refl
]

reviews-months_from :
    (k : Text) (m : List (Text × Month)) (xs : List WaCase)
    → (month_at k (months_from m xs)).reviews ≡ (month_at k m).reviews + cnt (in_month k) xs
unfolding months_from count_month
reviews-months_from k m [] = omega arith
reviews-months_from k m (c ∷ xs) =
    let next = put (month_of c) (count_month c (month_at (month_of c) m)) m in
    elim (Bool-cases (in_month k c)) [
      | inl e ↦
          ground (arith, reviews-months_from k next xs, ap Month.reviews (month_at-put k c m), e)
      | inr e ↦
          ground (arith, reviews-months_from k next xs, ap Month.reviews (month_at-put k c m), e)
    ]

abbrev pub negative_in_month : Text → WaCase → Bool
negative_in_month k c = in_month k c && is_negative c

neg-months_from :
    (k : Text) (m : List (Text × Month)) (xs : List WaCase)
    → (month_at k (months_from m xs)).neg ≡ (month_at k m).neg + cnt (negative_in_month k) xs
unfolding months_from count_month
neg-months_from k m [] = omega arith
neg-months_from k m (c ∷ xs) =
    let next = put (month_of c) (count_month c (month_at (month_of c) m)) m in
    elim (Bool-cases (in_month k c)) [
      | inl e ↦ ground (arith, neg-months_from k next xs, ap Month.neg (month_at-put k c m), e)
      | inr e ↦ ground (arith, neg-months_from k next xs, ap Month.neg (month_at-put k c m), e)
    ]

-- Every month has a case, and no month stands twice.
record IsCalendar (m : List (Text × Month)) : Type 0 where
  positive : All (λ e. 0 < e.1.reviews) m
  distinct : Distinct (map (λ e. e.0) m)

months_from-IsCalendar :
    (m : List (Text × Month)) (xs : List WaCase) → IsCalendar m → IsCalendar (months_from m xs)
unfolding months_from count_month
months_from-IsCalendar m [] h = h
months_from-IsCalendar m (c ∷ xs) h =
    let e = count_month c (month_at (month_of c) m) in
    months_from-IsCalendar (put (month_of c) e m) xs (record {
      positive = All-put (λ v. 0 < v.reviews) (month_of c) e m (omega arith) h.positive;
      distinct = Distinct-put (month_of c) e m h.distinct;
    })

-- What the entry of a month has to say of the cases.
pub record CountsMonth (k : Text) (e : Month) (xs : List WaCase) : Type 0 where
  pub reviews : e.reviews ≡ cnt (in_month k) xs
  pub neg : e.neg ≡ cnt (negative_in_month k) xs
  pub some_case : 0 < e.reviews

In-months :
    (k : Text) (e : Month) (xs : List WaCase) → In (k, e) (months_from [] xs) ↔ CountsMonth k e xs
In-months k e xs =
    let t = months_from [] xs in
    let calendar = months_from-IsCalendar [] xs (record { positive = tt; distinct = tt }) in
    let reviews = reviews-months_from k [] xs in
    let neg = neg-months_from k [] xs in
    (
      λ m.
          let found = In-get k e t calendar.distinct m in
          record {
            reviews = ground (arith, reviews, found);
            neg = ground (arith, neg, found);
            some_case = get-All (λ v. 0 < v.reviews) k t calendar.positive found;
          },
      λ h. elim (Option-cases (get k t)) [
        | inl a ↦ absurd (ground (arith, reviews, a, h.reviews, h.some_case))
        | inr (v, f) ↦
            let same : v ≡ e = ground (arith, reviews, neg, f, h.reviews, h.neg) in
            rw (← same) (get-In k t f)
      ],
    )

-- The monthly statistics have an entry for exactly the months of the cases, with the number of the
-- cases of that month and the number of the negative ones among them.
pub monthly_iff :
    (precedes : Text → Text → Bool) (k : Text) (e : Month) (xs : List WaCase)
    → In (k, e) (monthly precedes xs) ↔ CountsMonth k e xs
unfolding monthly
monthly_iff precedes k e xs =
    let i = In-months k e xs in
    let before = λ (a b : Text × Month). precedes a.0 b.0 in
    (
      λ m. i.0 (In-sort before (k, e) (months_from [] xs) m),
      λ h. sort-In before (k, e) (months_from [] xs) (i.1 h),
    )

-- They stand in the order of `localeCompare`, if that compares consistently.
pub monthly-IsSorted :
    (precedes : Text → Text → Bool) (xs : List WaCase)
    → IsConsistent precedes
    → IsSorted (λ a b. precedes a.0 b.0) (monthly precedes xs)
unfolding monthly
monthly-IsSorted precedes xs c =
    sort-IsSorted (λ a b. precedes a.0 b.0)
      (record { asym = λ a b. c.asym a.0 b.0; cotrans = λ a b d. c.cotrans a.0 b.0 d.0 })
      (months_from [] xs)
