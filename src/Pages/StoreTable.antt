-- ===== src/Pages/StoreTable.antt =====
-- The tables of stores of `admin/src/pages/Dashboard.tsx` (StoreRank) and `admin/src/pages/Stores.tsx`:
-- how a click on a column sorts them, and what they show. `precedes` says when `localeCompare` is
-- negative, and `lower` is `toLowerCase`.
pub mod Laws
use wachen.Base.{
  ℕ, Bool, true, false, not, ◌&&◌, ◌||◌, List, [], ◌∷◌, ◌++◌, Option, none, some, Text, utf16,
  text_Eq, ◌⊎◌, inl, inr, if◌then◌else◌, filter, take, is_empty, has_substring, num_eq,
}
use wachen.Base.Int.{ℤ, pos, ltb_ℤ}
use wachen.Base.Sort.{sort}
use wachen.Domain.{RiskLevel, high, medium, low}
use wachen.Case.{WaStore}

-- The columns of both tables.
pub data Column : Type 0 where
  store brand_short code region manager avg_rating neg neg_rate open_cases sla_rate avg_handle_hr
        trend risk_status :
      Column

abbrev pub risk_text : RiskLevel → Text
risk_text high = utf16 "high"
risk_text medium = utf16 "medium"
risk_text low = utf16 "low"

-- What a column holds: texts, or numbers.
unfoldable pub key_of : Column → (WaStore → Text) ⊎ (WaStore → ℤ)
key_of store = inl (λ s. s.store)
key_of brand_short = inl (λ s. s.brand_short)
key_of code = inl (λ s. s.code)
key_of region = inl (λ s. s.region)
key_of manager = inl (λ s. s.manager)
key_of risk_status = inl (λ s. risk_text s.risk_status)
key_of avg_rating = inr (λ s. pos s.avg_rating)
key_of neg = inr (λ s. pos s.neg)
key_of neg_rate = inr (λ s. pos s.neg_rate)
key_of open_cases = inr (λ s. pos s.open_cases)
key_of sla_rate = inr (λ s. pos s.sla_rate)
key_of avg_handle_hr = inr (λ s. pos s.avg_handle_hr)
key_of trend = inr (λ s. s.trend)

abbrev pub column_no : Column → ℕ
column_no store = 0
column_no brand_short = 1
column_no code = 2
column_no region = 3
column_no manager = 4
column_no risk_status = 5
column_no avg_rating = 6
column_no neg = 7
column_no neg_rate = 8
column_no open_cases = 9
column_no sla_rate = 10
column_no avg_handle_hr = 11
column_no trend = 12

-- `{ k, dir }`; `dir` is 1 where it rises.
pub record Sorting : Type 0 where
  pub k : Column
  pub rising : Bool

abbrev is_rising_on : Column → Option Sorting → Bool
is_rising_on c none = false
is_rising_on c (some s) = num_eq (column_no s.k) (column_no c) && s.rising

-- A click on the head of a column.
unfoldable pub click : Column → Option Sorting → Option Sorting
click c s = some (record { k = c; rising = not (is_rising_on c s) })

module _ (precedes : Text → Text → Bool) where
  abbrev pub less_by : (WaStore → Text) ⊎ (WaStore → ℤ) → WaStore → WaStore → Bool
  less_by (inl f) a b = precedes (f a) (f b)
  less_by (inr f) a b = ltb_ℤ (f a) (f b)

  -- Whether the comparison of the rows is negative.
  abbrev pub comes_first : Sorting → WaStore → WaStore → Bool
  comes_first s a b = if s.rising then less_by (key_of s.k) a b else less_by (key_of s.k) b a

  abbrev pub sorted : Option Sorting → List WaStore → List WaStore
  sorted none ss = ss
  sorted (some s) ss = sort (comes_first s) ss

  -- The rows of StoreRank.
  unfoldable pub rank_rows : Option Sorting → List WaStore → List WaStore
  unfolding key_of sort
  rank_rows sorting ss = take 8 (sorted sorting ss)

  abbrev pub matches : (Text → Text) → Text → WaStore → Bool
  matches lower q s =
      is_empty q || has_substring (lower (s.store ++ s.brand ++ s.manager)) (lower q)

  -- The rows of Stores.
  unfoldable pub store_rows : (Text → Text) → Text → Option Sorting → List WaStore → List WaStore
  unfolding key_of sort
  store_rows lower q sorting ss = sorted sorting (filter (matches lower q) ss)
