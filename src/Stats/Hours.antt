-- ===== src/Stats/Hours.antt =====
-- What the tables of hours and weekdays count.
use wachen.Base.{
  ℕ, zero, suc, ◌+◌, ◌<◌, ◌≡◌, refl, ap, ◌∙◌, Bool, ◌&&◌, List, [], ◌∷◌, map, Option, none, some,
  arith, num_eq, cnt, filter, length, get_elem?, replicate, if◌then◌else◌, Bool-cases, inl, inr,
}
use wachen.Base.Predicates.{All}
use wachen.Case.{WaCase}
use wachen.Stats.{is_negative, increment, increment_all, hour_counts, weekday_counts}

length-increment : (i : ℕ) (t : List (Option ℕ)) → i < length t → length (increment i t) ≡ length t
unfolding increment
length-increment i [] h = elim h [ ]
length-increment zero (none ∷ t) h = refl
length-increment zero (some n ∷ t) h = refl
length-increment (suc i) (x ∷ t) h = ap suc (length-increment i t (omega arith))

get-increment :
    (i h n : ℕ) (t : List (Option ℕ))
    → get_elem? t h ≡ some (some n)
    → get_elem? (increment i t) h ≡ some (some (if num_eq i h then n + 1 else n))
unfolding increment
get-increment i h n [] e = cc
get-increment zero zero n (none ∷ t) e = cc
get-increment zero zero n (some k ∷ t) e = ground arith
get-increment zero (suc h) n (none ∷ t) e = ground arith
get-increment zero (suc h) n (some k ∷ t) e = ground arith
get-increment (suc i) zero n (x ∷ t) e = ground arith
get-increment (suc i) (suc h) n (x ∷ t) e = ground (arith, get-increment i h n t e)

get-increment_all :
    (h n : ℕ) (t : List (Option ℕ)) (is : List ℕ)
    → get_elem? t h ≡ some (some n)
    → get_elem? (increment_all t is) h ≡ some (some (n + cnt (λ i. num_eq i h) is))
unfolding increment_all
get-increment_all h n t [] e = ground (arith, e)
get-increment_all h n t (i ∷ is) e = elim (Bool-cases (num_eq i h)) [
  | inl s ↦ ground (
    arith,
    s,
    get-increment_all h (n + 1) (increment i t) is (get-increment i h n t e ∙ rw s refl),
  )
  | inr s ↦
      ground
        (arith, s, get-increment_all h n (increment i t) is (get-increment i h n t e ∙ rw s refl))
]

length-increment_all :
    (n : ℕ) (t : List (Option ℕ)) (is : List ℕ)
    → length t ≡ n
    → All (λ i. i < n) is
    → length (increment_all t is) ≡ n
unfolding increment_all
length-increment_all n t [] e _ = e
length-increment_all n t (i ∷ is) e (h, hs) =
    length-increment_all n (increment i t) is (length-increment i t (omega arith) ∙ e) hs

abbrev counters : ℕ → List (Option ℕ)
counters n = replicate n (some 0)

get-replicate : (n h : ℕ) → h < n → get_elem? (counters n) h ≡ some (some 0)
get-replicate zero h p = elim p [ ]
get-replicate (suc n) zero p = refl
get-replicate (suc n) (suc h) p = get-replicate n h (omega arith)

length-replicate : (n : ℕ) → length (counters n) ≡ n
length-replicate zero = refl
length-replicate (suc n) = ap suc (length-replicate n)

-- The negative cases of a list whose number in the table is `h`.
abbrev pub falls_at : (WaCase → ℕ) → ℕ → WaCase → Bool
falls_at at h c = is_negative c && num_eq (at c) h

module _ (at : WaCase → ℕ) where
  cnt-negatives :
      (h : ℕ) (xs : List WaCase)
      → cnt (λ i. num_eq i h) (map at (filter is_negative xs)) ≡ cnt (falls_at at h) xs
  cnt-negatives h [] = refl
  cnt-negatives h (c ∷ xs) = ground (arith, cnt-negatives h xs)

  All-negatives :
      (n : ℕ) (xs : List WaCase)
      → All (λ c. at c < n) xs
      → All (λ i. i < n) (map at (filter is_negative xs))
  All-negatives n [] _ = tt
  All-negatives n (c ∷ xs) (h, hs) = elim (Bool-cases (is_negative c)) [
    | inl e ↦ rw e (h, All-negatives n xs hs)
    | inr e ↦ rw e (All-negatives n xs hs)
  ]

  -- A table of `n` counters over the negative cases: where every number of a case lies in the table,
  -- it keeps its length and counts at each place the negative cases with that number.
  table_counts :
      (n h : ℕ) (xs : List WaCase)
      → h < n
      → get_elem? (increment_all (counters n) (map at (filter is_negative xs))) h
        ≡ some (some (cnt (falls_at at h) xs))
  table_counts n h xs p =
      get-increment_all h 0 (counters n) (map at (filter is_negative xs)) (get-replicate n h p)
      ∙ ap (λ k. some (some k)) (omega (arith, cnt-negatives h xs))

  table_length :
      (n : ℕ) (xs : List WaCase)
      → All (λ c. at c < n) xs
      → length (increment_all (counters n) (map at (filter is_negative xs))) ≡ n
  table_length n xs h =
      length-increment_all n (counters n) (map at (filter is_negative xs)) (length-replicate n)
        (All-negatives n xs h)

-- Each of the 24 hours has the number of the negative cases of that hour.
pub hour_counts_lem :
    (h : ℕ) (xs : List WaCase)
    → h < 24
    → get_elem? (hour_counts xs) h ≡ some (some (cnt (falls_at (λ c. c.hour) h) xs))
unfolding hour_counts
hour_counts_lem h xs p = table_counts (λ c. c.hour) 24 h xs p

-- Each of the 7 weekdays has the number of the negative cases of that day.
pub weekday_counts_lem :
    (d : ℕ) (xs : List WaCase)
    → d < 7
    → get_elem? (weekday_counts xs) d ≡ some (some (cnt (falls_at (λ c. c.weekday) d) xs))
unfolding weekday_counts
weekday_counts_lem d xs p = table_counts (λ c. c.weekday) 7 d xs p

-- The tables stay at 24 and 7 counters if the cases have hours below 24 and weekdays below 7.
pub counts-length :
    (xs : List WaCase)
    → All (λ c. c.hour < 24) xs
    → All (λ c. c.weekday < 7) xs
    → (length (hour_counts xs) ≡ 24) × (length (weekday_counts xs) ≡ 7)
unfolding hour_counts weekday_counts
counts-length xs h d = (table_length (λ c. c.hour) 24 xs h, table_length (λ c. c.weekday) 7 xs d)
