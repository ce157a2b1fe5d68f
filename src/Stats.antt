-- ===== src/Stats.antt =====
-- `scopedStats` of `admin/src/lib/roles.ts`: the statistics of a list of cases.
pub mod Tally
pub mod Months
pub mod Hours
mod Tests
use wachen.Base.{
  ℕ, zero, suc, ◌+◌, Bool, true, false, List, [], ◌∷◌, ◌++◌, map, Option, none, some, Text, text_Eq,
  nat_eq, Eq, ◌==◌, if◌then◌else◌, filter, take, replicate, get, put, or_else, ltb,
}
use wachen.Base.Sort.{sort}
use wachen.Domain.{Sentiment, negative, positive, sentiment_Eq}
use wachen.Case.{WaCase}

-- `for (const k of ks) m.set(k, (m.get(k) ?? 0) + 1)`
module _ {K : Type 0} ⦃e : Eq K⦄ where
  unfoldable pub tally_from : List (K × ℕ) → List K → List (K × ℕ)
  tally_from m [] = m
  tally_from m (k ∷ ks) = tally_from (put k (or_else (get k m) 0 + 1) m) ks

-- `for (const c of cs) for (const k of keys(c)) …`
unfoldable pub tally_cases : (WaCase → List Text) → List (Text × ℕ) → List WaCase → List (Text × ℕ)
unfolding tally_from
tally_cases keys m [] = m
tally_cases keys m (c ∷ xs) = tally_cases keys (tally_from m (keys c)) xs

-- `(a, b) => b[1] - a[1]`
abbrev pub more_first : Text × ℕ → Text × ℕ → Bool
more_first a b = ltb b.1 a.1

unfoldable pub category_counts : List WaCase → List (Text × ℕ)
unfolding tally_cases sort
category_counts xs = sort more_first (tally_cases (λ c. c.categories) [] xs)

-- `kw`
unfoldable pub keyword_counts : List WaCase → List (Text × ℕ)
unfolding tally_cases sort
keyword_counts xs = take 24 (sort more_first (tally_cases (λ c. c.keywords) [] xs))

-- The loop over the ratings; its object is read by key only.
unfoldable pub star_counts : List WaCase → List (ℕ × ℕ)
unfolding tally_from
star_counts xs = tally_from [] (map (λ c. c.rating) xs)

pub record Month : Type 0 where
  pub reviews : ℕ
  pub neg : ℕ

abbrev pub no_month : Month
no_month = record { reviews = 0; neg = 0 }

abbrev pub is_negative : WaCase → Bool
is_negative c = c.sentiment == negative

-- One round of the loop: `e.reviews++`, and `e.neg++` for a negative case.
unfoldable pub count_month : WaCase → Month → Month
count_month c e = record {
  reviews = e.reviews + 1;
  neg = if is_negative c then e.neg + 1 else e.neg;
}

-- `c.posted_at.slice(0, 7)`
abbrev pub month_of : WaCase → Text
month_of c = take 7 c.posted_at

unfoldable pub months_from : List (Text × Month) → List WaCase → List (Text × Month)
unfolding count_month
months_from m [] = m
months_from m (c ∷ xs) =
    months_from (put (month_of c) (count_month c (or_else (get (month_of c) m) no_month)) m) xs

-- The months in the order of `localeCompare`, of which `precedes` says when it is negative.
unfoldable pub monthly : (Text → Text → Bool) → List WaCase → List (Text × Month)
unfolding months_from sort
monthly precedes xs = sort (λ a b. precedes a.0 b.0) (months_from [] xs)

-- `xs[i]++`. Past the end it leaves a hole or `NaN`, which is `none`.
unfoldable pub increment : ℕ → List (Option ℕ) → List (Option ℕ)
increment zero [] = none ∷ []
increment (suc i) [] = none ∷ increment i []
increment zero (none ∷ xs) = none ∷ xs
increment zero (some n ∷ xs) = some (n + 1) ∷ xs
increment (suc i) (x ∷ xs) = x ∷ increment i xs

unfoldable pub increment_all : List (Option ℕ) → List ℕ → List (Option ℕ)
unfolding increment
increment_all t [] = t
increment_all t (i ∷ is) = increment_all (increment i t) is

unfoldable pub hour_counts : List WaCase → List (Option ℕ)
unfolding increment_all
hour_counts xs = increment_all (replicate 24 (some 0)) (map (λ c. c.hour) (filter is_negative xs))

unfoldable pub weekday_counts : List WaCase → List (Option ℕ)
unfolding increment_all
weekday_counts xs =
    increment_all (replicate 7 (some 0)) (map (λ c. c.weekday) (filter is_negative xs))

pub record Stats : Type 0 where
  pub months : List (Text × Month)
  pub star : List (ℕ × ℕ)
  pub category : List (Text × ℕ)
  pub hour : List (Option ℕ)
  pub weekday : List (Option ℕ)
  pub kw_neg : List (Text × ℕ)
  pub kw_pos : List (Text × ℕ)

unfoldable pub scoped_stats : (Text → Text → Bool) → List WaCase → Stats
unfolding monthly star_counts category_counts hour_counts weekday_counts keyword_counts
scoped_stats precedes xs = record {
  months = monthly precedes xs;
  star = star_counts xs;
  category = category_counts xs;
  hour = hour_counts xs;
  weekday = weekday_counts xs;
  kw_neg = keyword_counts (filter is_negative xs);
  kw_pos = keyword_counts (filter (λ c. c.sentiment == positive) xs);
}
