-- ===== src/Pages/Improve/Bars.antt =====
-- The bars of the ranking on `admin/src/pages/Improve.tsx`: BarChart of `admin/src/components/charts.tsx` on
-- trends, which may be below zero. A trend is in tenths, a width in tenths of a percent.
use wachen.Base.{
  ◌≡◌, refl, ℕ, zero, suc, ◌*◌, ◌≤◌, ◌<◌, Bool, true, false, not, List, [], ◌∷◌, Text, String,
  arith, max, min, take, map,
}
use wachen.Base.Int.{ℤ, pos, negsuc, ltb_ℤ}
use wachen.Base.Predicates.{All, All-imp, All-take, All-map, Pairs}
use wachen.Base.Rounding.{round_div, round_div_le, le_round_div, round_div_mono}
use wachen.Base.Sort.{
  IsConsistent, IsSorted, sort, sort-IsSorted, sort-All, IsSorted-take, IsSorted-map,
}
use wachen.Case.{WaStore}
use wachen.Pages.Improve.{TrendRow, trend_row, store_rank}
use wachen.Pages.StoreTable.Laws.{ltb_ℤ-IsConsistent}

pub record TrendBar : Type 0 where
  pub title : Text
  pub width : ℤ
  pub color : String
  pub delay : ℕ
  pub plus : Bool
  pub shown : ℤ

abbrev pub above_zero : ℤ → ℕ
above_zero (pos v) = v
above_zero (negsuc n) = 0

-- `Math.max(...rows.map((r) => r.v), 1)`: what is below zero is never the largest.
unfoldable pub largest_trend : List TrendRow → ℕ
largest_trend [] = 10
largest_trend (r ∷ rs) = max (above_zero r.v) (largest_trend rs)

abbrev pub minus : ℕ → ℤ
minus zero = pos 0
minus (suc n) = negsuc n

-- `((r.v / max) * 100).toFixed(1)`, which rounds what is below zero as its absolute value.
abbrev pub width_of : ℕ → ℤ → ℤ
width_of top (pos v) = pos (round_div (1000 * v) top)
width_of top (negsuc n) = minus (round_div (1000 * suc n) top)

unfoldable pub trend_bar : ℕ → ℕ → TrendRow → TrendBar
trend_bar top i r = record {
  title = r.n;
  width = width_of top r.v;
  color = r.color;
  delay = min i 8 * 30;
  plus = not (ltb_ℤ r.v (pos 0));
  shown = r.v;
}

unfoldable pub trend_bars_from : ℕ → ℕ → List TrendRow → List TrendBar
unfolding trend_bar
trend_bars_from top i [] = []
trend_bars_from top i (r ∷ rs) = trend_bar top i r ∷ trend_bars_from top (suc i) rs

unfoldable pub store_bars : List WaStore → List TrendBar
unfolding store_rank trend_bars_from largest_trend
store_bars ss = let rows = store_rank ss in trend_bars_from (largest_trend rows) 0 rows

-- Below, `shorter a b` says that the width `a` is below the width `b`.
minus-below : (k : ℕ) (v : ℕ) → ltb_ℤ (pos v) (minus k) ≡ false
minus-below zero v = ground arith
minus-below (suc k) v = refl

minus_mono : (k m : ℕ) → k ≤ m → ltb_ℤ (minus k) (minus m) ≡ false
minus_mono zero zero h = refl
minus_mono zero (suc m) h = refl
minus_mono (suc k) zero h = ground arith
minus_mono (suc k) (suc m) h = ground arith

width_of_mono :
    (top : ℕ)
    → 0 < top
    → (a b : ℤ) → ltb_ℤ a b ≡ false
    → ltb_ℤ (width_of top a) (width_of top b) ≡ false
width_of_mono top h (pos a) (pos b) g =
    let k = round_div_mono (1000 * b) (1000 * a) top h (ground arith) in ground arith
width_of_mono top h (pos a) (negsuc b) g = minus-below (round_div (1000 * suc b) top) _
width_of_mono top h (negsuc a) (pos b) g = cc
width_of_mono top h (negsuc a) (negsuc b) g =
    minus_mono _ _ (round_div_mono (1000 * suc a) (1000 * suc b) top h (ground arith))

-- A bar is at most as wide as its track, and its width is below zero exactly where the trend is.
abbrev pub Fits : TrendRow → TrendBar → Type 0
Fits r b =
    (b.title ≡ r.n)
    × (ltb_ℤ (pos 1000) b.width ≡ false)
    × (ltb_ℤ b.width (pos 0) ≡ ltb_ℤ r.v (pos 0))

abbrev pub wider : TrendBar → TrendBar → Bool
wider a b = ltb_ℤ b.width a.width

module _ (top : ℕ) (some_room : 0 < top) where
  trend_bars_from-All :
      (P : TrendRow → Type 0) (Q : TrendBar → Type 0)
      → ((i : ℕ) (r : TrendRow) → P r → Q (trend_bar top i r))
      → (i : ℕ) (rows : List TrendRow) → All P rows
      → All Q (trend_bars_from top i rows)
  unfolding trend_bars_from
  trend_bars_from-All P Q step i [] h = tt
  trend_bars_from-All P Q step i (r ∷ rs) (h, hs) =
      (step i r h, trend_bars_from-All P Q step (suc i) rs hs)

  trend_bars_from-IsSorted :
      (i : ℕ) (rows : List TrendRow)
      → IsSorted (λ a b. ltb_ℤ b.v a.v) rows
      → IsSorted wider (trend_bars_from top i rows)
  unfolding trend_bars_from trend_bar
  trend_bars_from-IsSorted i [] h = tt
  trend_bars_from-IsSorted i (r ∷ rs) (h, hs) = (
    trend_bars_from-All (λ q. ltb_ℤ r.v q.v ≡ false) (λ b. ltb_ℤ (width_of top r.v) b.width ≡ false)
        (λ j q. width_of_mono top some_room r.v q.v) (suc i) rs h,
    trend_bars_from-IsSorted (suc i) rs hs,
  )

  minus-sign : (k : ℕ) → 0 < k → ltb_ℤ (minus k) (pos 0) ≡ true
  minus-sign zero h = ground arith
  minus-sign (suc k) h = refl

  module _ (small : top ≤ 1000) where
    trend_bar-Fits : (i : ℕ) (r : TrendRow) → above_zero r.v ≤ top → Fits r (trend_bar top i r)
    unfolding trend_bar
    trend_bar-Fits i r h = (refl, width_of-le r.v h, width_of-sign r.v)
      where
        width_of-le : (v : ℤ) → above_zero v ≤ top → ltb_ℤ (pos 1000) (width_of top v) ≡ false
        width_of-le (pos v) h =
            let k = round_div_le (1000 * v) top 1000 some_room (omega arith) in ground arith
        width_of-le (negsuc n) h = minus-below (round_div (1000 * suc n) top) 1000

        width_of-sign : (v : ℤ) → ltb_ℤ (width_of top v) (pos 0) ≡ ltb_ℤ v (pos 0)
        width_of-sign (pos v) = ground arith
        width_of-sign (negsuc n) =
            minus-sign (round_div (1000 * suc n) top)
              (le_round_div (1000 * suc n) top 1 some_room (omega arith))

    trend_bars_from-Fits :
        (i : ℕ) (rows : List TrendRow)
        → All (λ r. above_zero r.v ≤ top) rows
        → Pairs Fits rows (trend_bars_from top i rows)
    unfolding trend_bars_from
    trend_bars_from-Fits i [] h = tt
    trend_bars_from-Fits i (r ∷ rs) (h, hs) =
        (trend_bar-Fits i r h, trend_bars_from-Fits (suc i) rs hs)

largest_trend-bounds :
    (rows : List TrendRow)
    → All (λ r. above_zero r.v ≤ 1000) rows
    → (0 < largest_trend rows)
      × (largest_trend rows ≤ 1000)
      × All (λ r. above_zero r.v ≤ largest_trend rows) rows
unfolding largest_trend
largest_trend-bounds [] h = (omega arith, omega arith, tt)
largest_trend-bounds (r ∷ rs) (h, hs) =
    let b = largest_trend-bounds rs hs in
    let m = max (above_zero r.v) (largest_trend rs) in
    (
      omega (arith, b.0),
      omega (arith, b.1),
      (
        omega arith,
        All-imp (λ q. above_zero q.v ≤ largest_trend rs) (λ q. above_zero q.v ≤ m)
            (λ q g. omega arith) rs b.2,
      ),
    )

trend-IsConsistent : IsConsistent {A = WaStore} (λ x y. ltb_ℤ y.trend x.trend)
trend-IsConsistent = record {
  asym = λ x y. ltb_ℤ-IsConsistent.asym y.trend x.trend;
  cotrans = λ x y z h k. ltb_ℤ-IsConsistent.cotrans z.trend y.trend x.trend k h;
}

-- The ranking of the improvements, for stores whose trend is below a hundred stars: it has a bar for
-- each of its rows, with the row's name; no bar is wider than the one above it or than its track; and
-- where the trend is below zero, so is the width, which no browser can draw.
pub store_bars_lem :
    (ss : List WaStore)
    → All (λ s. above_zero s.trend ≤ 1000) ss
    → Pairs Fits (store_rank ss) (store_bars ss) × IsSorted wider (store_bars ss)
unfolding store_bars store_rank
store_bars_lem ss h =
    let ts = sort (λ a b. ltb_ℤ b.trend a.trend) ss in
    let rows = map trend_row (take 8 ts) in
    let b = largest_trend-bounds rows (
      All-map (λ r. above_zero r.v ≤ 1000) trend_row (take 8 ts)
        (All-take (λ s. above_zero s.trend ≤ 1000) 8 ts
          (sort-All (λ a b. ltb_ℤ b.trend a.trend) (λ s. above_zero s.trend ≤ 1000) ss h))) in
    (
      trend_bars_from-Fits (largest_trend rows) b.0 b.1 0 rows b.2,
      trend_bars_from-IsSorted (largest_trend rows) b.0 0 rows (
          IsSorted-map (λ x y. ltb_ℤ y.v x.v) trend_row (take 8 ts)
            (IsSorted-take (λ x y. ltb_ℤ y.trend x.trend) 8 ts
              (sort-IsSorted (λ x y. ltb_ℤ y.trend x.trend) trend-IsConsistent ss))),
    )
