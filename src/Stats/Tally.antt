-- ===== src/Stats/Tally.antt =====
-- What the counters of categories and keywords count.
use wachen.Base.{
  ℕ, ◌+◌, ◌<◌, ◌≡◌, ◌↔◌, inl, inr, List, [], ◌∷◌, map, Text, text_Eq, ◌==◌, arith, get, put,
  get-put, All-put, Distinct-put, get-In, In-get, get-All, or_else, cnt, sum, Option-cases, text_eq,
  text_eq_iff, Bool-cases, ap,
}
use wachen.Base.Predicates.{All, In, Distinct}
use wachen.Base.Sort.{IsConsistent, IsSorted, sort-IsSorted, sort-In, In-sort}
use wachen.Case.{WaCase}
use wachen.Stats.{tally_from, tally_cases, more_first, category_counts}

-- How often the cases bear the mark `k`.
abbrev pub markings : (WaCase → List Text) → Text → List WaCase → ℕ
markings keys k xs = sum (λ c. cnt (λ j. j == k) (keys c)) xs

get-tally_from :
    (m : List (Text × ℕ)) (k : Text) (ks : List Text)
    → or_else (get k (tally_from m ks)) 0 ≡ or_else (get k m) 0 + cnt (λ j. j == k) ks
unfolding tally_from
get-tally_from m k [] = omega arith
get-tally_from m k (j ∷ ks) = elim (Bool-cases (text_eq j k)) [
  | inl e ↦ ground (
    arith,
    get-tally_from (put j (or_else (get j m) 0 + 1) m) k ks,
    get-put j k (or_else (get j m) 0 + 1) m,
    e,
    ap (λ i. get i m) ((text_eq_iff j k).0 e),
  )
  | inr e ↦ ground (
    arith,
    get-tally_from (put j (or_else (get j m) 0 + 1) m) k ks,
    get-put j k (or_else (get j m) 0 + 1) m,
    e,
  )
]

-- Every entry counts something, and no key stands twice.
record IsTally (m : List (Text × ℕ)) : Type 0 where
  positive : All (λ e. 0 < e.1) m
  distinct : Distinct (map (λ e. e.0) m)

tally_from-IsTally : (m : List (Text × ℕ)) (ks : List Text) → IsTally m → IsTally (tally_from m ks)
unfolding tally_from
tally_from-IsTally m [] h = h
tally_from-IsTally m (k ∷ ks) h =
    tally_from-IsTally (put k (or_else (get k m) 0 + 1) m) ks (record {
      positive = All-put (λ n. 0 < n) k (or_else (get k m) 0 + 1) m (omega arith) h.positive;
      distinct = Distinct-put k (or_else (get k m) 0 + 1) m h.distinct;
    })

module _ (keys : WaCase → List Text) where
  get-tally_cases :
      (m : List (Text × ℕ)) (k : Text) (xs : List WaCase)
      → or_else (get k (tally_cases keys m xs)) 0 ≡ or_else (get k m) 0 + markings keys k xs
  unfolding tally_cases
  get-tally_cases m k [] = omega arith
  get-tally_cases m k (c ∷ xs) =
      omega (arith, get-tally_cases (tally_from m (keys c)) k xs, get-tally_from m k (keys c))

  tally_cases-IsTally :
      (m : List (Text × ℕ)) (xs : List WaCase) → IsTally m → IsTally (tally_cases keys m xs)
  unfolding tally_cases
  tally_cases-IsTally m [] h = h
  tally_cases-IsTally m (c ∷ xs) h =
      tally_cases-IsTally (tally_from m (keys c)) xs (tally_from-IsTally m (keys c) h)

  all_of : (xs : List WaCase) → IsTally (tally_cases keys [] xs)
  all_of xs = tally_cases-IsTally [] xs (record { positive = tt; distinct = tt })

  In-tally_cases :
      (k : Text) (n : ℕ) (xs : List WaCase)
      → In (k, n) (tally_cases keys [] xs) ↔ ((n ≡ markings keys k xs) × (0 < n))
  In-tally_cases k n xs =
      let t = tally_cases keys [] xs in
      let total = get-tally_cases [] k xs in
      (
        λ m.
            let found = In-get k n t (all_of xs).distinct m in
            (ground (arith, total, found), get-All (λ v. 0 < v) k t (all_of xs).positive found),
        λ h. elim (Option-cases (get k t)) [
          | inl e ↦ absurd (ground (arith, total, e, h.0, h.1))
          | inr (v, e) ↦
              let same : v ≡ n = ground (arith, total, e, h.0) in rw (← same) (get-In k t e)
        ],
      )

more_first-IsConsistent : IsConsistent more_first
more_first-IsConsistent = record {
  asym = λ a b h. ground arith;
  cotrans = λ a b c h k. ground arith;
}

-- The entries of the category statistics are exactly the categories that some case bears, each with
-- the number of times that the cases bear it.
pub category_counts_iff :
    (k : Text) (n : ℕ) (xs : List WaCase)
    → In (k, n) (category_counts xs) ↔ ((n ≡ markings (λ c. c.categories) k xs) × (0 < n))
unfolding category_counts
category_counts_iff k n xs =
    let e = In-tally_cases (λ c. c.categories) k n xs in
    let t = tally_cases (λ c. c.categories) [] xs in
    (λ m. e.0 (In-sort more_first (k, n) t m), λ h. sort-In more_first (k, n) t (e.1 h))

-- They stand in falling order of their numbers.
pub category_counts-IsSorted : (xs : List WaCase) → IsSorted more_first (category_counts xs)
unfolding category_counts
category_counts-IsSorted xs =
    sort-IsSorted more_first more_first-IsConsistent (tally_cases (λ c. c.categories) [] xs)
