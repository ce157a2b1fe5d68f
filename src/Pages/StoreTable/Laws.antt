-- ===== src/Pages/StoreTable/Laws.antt =====
-- What the sorted tables show.
use mathlib.Core.List.{Perm}
use wachen.Base.{◌≡◌, refl, Bool, true, false, List, [], ◌∷◌, ◌++◌, Text, arith, ◌≤◌, min, length}
use wachen.Base.Int.{ℤ, pos, negsuc, ltb_ℤ}
use wachen.Base.Sort.{IsConsistent}
use wachen.Base.Predicates.{All}
use wachen.Case.{WaStore}
use wachen.Pages.StoreTable.{
  Column, store, brand_short, code, region, manager, avg_rating, neg, neg_rate, open_cases,
  sla_rate, avg_handle_hr, trend, risk_status, risk_text,
}

pub ltb_ℤ-IsConsistent : IsConsistent ltb_ℤ
ltb_ℤ-IsConsistent = record { asym = asym; cotrans = cotrans }
  where
    asym : (a b : ℤ) → ltb_ℤ a b ≡ true → ltb_ℤ b a ≡ false
    asym (pos a) (pos b) h = ground arith
    asym (pos a) (negsuc b) h = ground arith
    asym (negsuc a) (pos b) h = ground arith
    asym (negsuc a) (negsuc b) h = ground arith

    cotrans : (a b c : ℤ) → ltb_ℤ a b ≡ false → ltb_ℤ b c ≡ false → ltb_ℤ a c ≡ false
    cotrans (pos a) (pos b) (pos c) h k = ground arith
    cotrans (pos a) b (negsuc c) h k = refl
    cotrans (pos a) (negsuc b) (pos c) h k = ground arith
    cotrans (negsuc a) (pos b) c h k = ground arith
    cotrans (negsuc a) (negsuc b) (pos c) h k = ground arith
    cotrans (negsuc a) (negsuc b) (negsuc c) h k = ground arith

-- What the user expects of two rows, the one above the other, where a column rises: by the text, in the
-- order of the language, or by the number that stands in the column.
abbrev pub Rises : (Text → Text → Bool) → Column → WaStore → WaStore → Type 0
Rises precedes store a b = precedes b.store a.store ≡ false
Rises precedes brand_short a b = precedes b.brand_short a.brand_short ≡ false
Rises precedes code a b = precedes b.code a.code ≡ false
Rises precedes region a b = precedes b.region a.region ≡ false
Rises precedes manager a b = precedes b.manager a.manager ≡ false
Rises precedes avg_rating a b = a.avg_rating ≤ b.avg_rating
Rises precedes neg a b = a.neg ≤ b.neg
Rises precedes neg_rate a b = a.neg_rate ≤ b.neg_rate
Rises precedes open_cases a b = a.open_cases ≤ b.open_cases
Rises precedes sla_rate a b = a.sla_rate ≤ b.sla_rate
Rises precedes avg_handle_hr a b = a.avg_handle_hr ≤ b.avg_handle_hr
Rises precedes trend a b = ltb_ℤ b.trend a.trend ≡ false
Rises precedes risk_status a b =
    precedes (risk_text b.risk_status) (risk_text a.risk_status) ≡ false

-- Every row stands so to all rows below it.
abbrev pub Each : (WaStore → WaStore → Type 0) → List WaStore → Type 0
Each R [] = Unit
Each R (a ∷ ss) = All (R a) ss × Each R ss

-- The columns by their numbers.
abbrev columns : List Column
columns =
    store ∷ brand_short ∷ code ∷ region ∷ manager ∷ risk_status ∷ avg_rating ∷ neg ∷ neg_rate
    ∷ open_cases ∷ sla_rate ∷ avg_handle_hr ∷ trend ∷ []

-- The first eight of all stores in an order.
abbrev pub FirstEight : (WaStore → WaStore → Type 0) → List WaStore → List WaStore → Type 0
FirstEight R ss rows =
    (length rows ≡ min 8 (length ss))
    × (rest : List WaStore) × Perm (rows ++ rest) ss
    × Each R (rows ++ rest)
