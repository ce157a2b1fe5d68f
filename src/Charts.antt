-- ===== src/Charts.antt =====
-- The charts of the admin client, `admin/src/components/charts.tsx`, on numbers that count: what each
-- draws, without styles that depend on no data. Quotients are exact, where the program has doubles.
pub mod Bars
pub mod Rings
pub mod Frame
mod Tests
use wachen.Base.{
  ℕ, zero, suc, ◌+◌, ◌-◌, ◌*◌, ◌%◌, Bool, true, false, not, ◌&&◌, List, [], ◌∷◌, ◌++◌, map, Option,
  none, some, or_else, Text, String, if◌then◌else◌, ltb, leb, num_eq, take, sum, length, max, min,
  ◌⊎◌, inl, inr, get_elem?,
}
use wachen.Base.Rounding.{round_div}

-- `pct` of `admin/src/lib/db.ts`
unfoldable pub pct : ℕ → ℕ → ℕ
pct a b = if num_eq b 0 then 0 else round_div (a * 100) b

pub record BarRow : Type 0 where
  pub n : Text
  pub v : ℕ
  pub color : Option String

-- `Math.max(...vs, 1)`
unfoldable pub largest : List ℕ → ℕ
largest [] = 1
largest (v ∷ vs) = max v (largest vs)

abbrev pub values : List BarRow → List ℕ
values rows = map (λ r. r.v) rows

abbrev pub total_of : List BarRow → ℕ
total_of rows = sum (λ r. r.v) rows

-- One bar: its width in tenths of a percent, as `toFixed(1)` has it, and its delay in milliseconds.
pub record Bar : Type 0 where
  pub title : Text
  pub width : ℕ
  pub color : String
  pub delay : ℕ
  pub shown : ℕ ⊎ Text
  pub percent : Option ℕ

abbrev pub shown_value : Option (ℕ → Text) → ℕ → ℕ ⊎ Text
shown_value none v = inl v
shown_value (some fmt) v = inr (fmt v)

module _ (fmt : Option (ℕ → Text)) (show_pct : Bool) (top total : ℕ) where
  unfoldable pub bar : ℕ → BarRow → Bar
  unfolding pct
  bar i r = record {
    title = r.n;
    width = round_div (1000 * r.v) top;
    color = or_else r.color "var(--s1)";
    delay = min i 8 * 30;
    shown = shown_value fmt r.v;
    percent = if show_pct then some (pct r.v total) else none;
  }

  -- The bars from index `i` on.
  unfoldable pub bars_from : ℕ → List BarRow → List Bar
  unfolding bar
  bars_from i [] = []
  bars_from i (r ∷ rs) = bar i r ∷ bars_from (suc i) rs

-- BarChart
unfoldable pub bar_chart : List BarRow → Option ℕ → Option (ℕ → Text) → Bool → List Bar
unfolding bars_from largest
bar_chart rows tot fmt show_pct =
    bars_from fmt show_pct (largest (values rows)) (or_else tot (total_of rows)) 0 rows

-- A segment of the ring goes from `start` to `end` of `whole` parts of the full turn.
pub record Segment : Type 0 where
  pub color : Option String
  pub start : ℕ
  pub end : ℕ
  pub whole : ℕ

-- The loop over the rows, with `acc`.
unfoldable pub segments_from : ℕ → ℕ → List BarRow → List Segment
segments_from whole acc [] = []
segments_from whole acc (r ∷ rs) =
    record { color = r.color; start = acc; end = acc + r.v; whole = whole }
    ∷ segments_from whole (acc + r.v) rs

pub record LegendLine : Type 0 where
  pub color : Option String
  pub label : Text
  pub v : ℕ
  pub percent : ℕ

pub record DonutView : Type 0 where
  pub segments : List Segment
  pub center : ℕ
  pub sub : Text
  pub legend : List LegendLine

-- `n || 1`
abbrev pub or_one : ℕ → ℕ
or_one n = if num_eq n 0 then 1 else n

-- Donut
unfoldable pub donut : List BarRow → ℕ → Text → DonutView
unfolding segments_from pct
donut rows center sub =
    let tot = or_one (total_of rows) in
    record {
      segments = segments_from tot 0 rows;
      center = center;
      sub = sub;
      legend =
          map (λ r. record { color = r.color; label = r.n; v = r.v; percent = pct r.v tot }) rows;
    }

pub record LineSeries : Type 0 where
  pub label : Text
  pub color : String
  pub data_points : List ℕ

-- A coordinate `over / under`.
pub record Ratio : Type 0 where
  pub over : ℕ
  pub under : ℕ

-- `X(i)` for `n` labels: from 34 to 628 of 640.
unfoldable pub x_at : ℕ → ℕ → Ratio
x_at n i =
    if leb n 1
    then record { over = 34; under = 1 }
    else record { over = 34 * (n - 1) + 594 * i; under = n - 1 }

-- `Y(v)` in a chart of height `h`; the numbers are not negative, so `mn` is 0 and `mx - mn` is not.
unfoldable pub y_at : ℕ → ℕ → ℕ → Ratio
y_at h mx v = record { over = 12 * mx + (h - 36) * (mx - v); under = mx }

-- A line of the grid, at `quarter / 4` of the height, with its number.
pub record GridLine : Type 0 where
  pub y : Ratio
  pub label : ℕ

unfoldable pub grid_line : ℕ → ℕ → ℕ → GridLine
grid_line h mx quarter = record {
  y = record { over = 12 * 4 + (h - 36) * quarter; under = 4 };
  label = round_div (mx * (4 - quarter)) 4;
}

pub record Polyline : Type 0 where
  pub color : String
  pub points : List (Ratio × Ratio)

module _ (n h mx : ℕ) where
  unfoldable pub points_from : ℕ → List ℕ → List (Ratio × Ratio)
  unfolding x_at y_at
  points_from i [] = []
  points_from i (v ∷ vs) = (x_at n i, y_at h mx v) ∷ points_from (suc i) vs

-- From nine labels on, every other one is left out.
unfoldable pub labels_from : ℕ → ℕ → List Text → List (Ratio × Text)
unfolding x_at
labels_from n i [] = []
labels_from n i (l ∷ ls) =
    let rest = labels_from n (suc i) ls in
    if ltb 8 n && not (num_eq (i % 2) 0) then rest else (x_at n i, l) ∷ rest

pub record LineView : Type 0 where
  pub grid : List GridLine
  pub lines : List Polyline
  pub labels : List (Ratio × Text)
  pub legend : List (Text × String)

abbrev pub all_values : List LineSeries → List ℕ
all_values [] = []
all_values (s ∷ ss) = s.data_points ++ all_values ss

-- LineChart, of a height of at least 36.
unfoldable pub line_chart : List LineSeries → List Text → ℕ → LineView
unfolding largest grid_line points_from labels_from
line_chart series labels h =
    let n = length labels in
    let mx = largest (all_values series) in
    record {
      grid = map (grid_line h mx) (0 ∷ 1 ∷ 2 ∷ 3 ∷ 4 ∷ []);
      lines =
          map (λ s. record { color = s.color; points = points_from n h mx 0 s.data_points }) series;
      labels = labels_from n 0 labels;
      legend = if ltb 1 (length series) then map (λ s. (s.label, s.color)) series else [];
    }

-- A word of the cloud: its size in pixels, and how much of the base colour its ground has, in percent.
pub record CloudWord : Type 0 where
  pub word : Text
  pub times : ℕ
  pub size : ℕ
  pub ground : Ratio

unfoldable pub cloud_word : ℕ → Text × ℕ → CloudWord
cloud_word top (k, v) = record {
  word = k;
  times = v;
  size = round_div (13 * top + 13 * v) top;
  ground = record { over = 10 * top + 30 * v; under = top };
}

-- KwCloud
unfoldable pub kw_cloud : List (Text × ℕ) → List CloudWord
unfolding largest cloud_word
kw_cloud ks = map (cloud_word (largest (map (λ k. k.1) ks))) (take 30 ks)
