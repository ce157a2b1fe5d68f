-- ===== src/Mobile/Drawn.antt =====
-- The charts of the mobile client, `mobile/src/components/charts`, on numbers that count. Quotients are
-- exact, where the program has doubles.
pub mod Same
use wachen.Base.{
  ℕ, suc, ◌+◌, ◌-◌, ◌*◌, ◌%◌, Bool, not, ◌&&◌, List, [], ◌∷◌, ◌++◌, map, Option, none, some,
  or_else, Text, String, if◌then◌else◌, num_eq, leb, ltb, length,
}
use wachen.Base.Rounding.{round_div}
use wachen.Charts.{
  BarRow, values, total_of, largest, or_one, Ratio, LineSeries, all_values, GridLine, Polyline,
  LineView,
}

-- A bar: its width in percent, and the percentage after its number.
pub record Bar : Type 0 where
  pub name : Text
  pub value : ℕ
  pub width : Ratio
  pub color : String
  pub percent : Option ℕ

abbrev pub share : ℕ → ℕ → ℕ
share v whole = round_div (v * 100) whole

abbrev pub bar : Bool → ℕ → ℕ → BarRow → Bar
bar show_pct top total r = record {
  name = r.n;
  value = r.v;
  width = record { over = 100 * r.v; under = top };
  color = or_else r.color "s1";
  percent = if show_pct && not (num_eq total 0) then some (share r.v total) else none;
}

-- BarChart
unfoldable pub bar_chart : List BarRow → Bool → Option ℕ → List Bar
unfolding largest
bar_chart rows show_pct total =
    map (bar show_pct (largest (values rows)) (or_else total (total_of rows))) rows

-- An arc of the ring: where it starts and how long it is, in `whole`ths of the turn.
pub record Arc : Type 0 where
  pub offset : ℕ
  pub frac : ℕ
  pub whole : ℕ
  pub color : Option String

-- The loop over the rows, with `offset`.
unfoldable pub arcs_from : ℕ → ℕ → List BarRow → List Arc
arcs_from whole offset [] = []
arcs_from whole offset (r ∷ rs) =
    record { offset = offset; frac = r.v; whole = whole; color = r.color }
    ∷ arcs_from whole (offset + r.v) rs

pub record DonutView : Type 0 where
  pub arcs : List Arc
  pub label : Text
  pub sub : Option Text
  pub legend : List (Text × ℕ × ℕ)

-- Donut
unfoldable pub donut : List BarRow → Text → Option Text → DonutView
unfolding arcs_from
donut rows label sub =
    let total = or_one (total_of rows) in
    record {
      arcs = arcs_from total 0 rows;
      label = label;
      sub = sub;
      legend = map (λ r. (r.n, r.v, share r.v total)) rows;
    }

-- `X(i)` and `Y(v)`, for a chart of width `w` and height `h`.
unfoldable pub x_at : ℕ → ℕ → ℕ → Ratio
x_at w n i =
    if leb n 1
    then record { over = 34; under = 1 }
    else record { over = 34 * (n - 1) + (w - 42) * i; under = n - 1 }

unfoldable pub y_at : ℕ → ℕ → ℕ → Ratio
y_at h mx v = record { over = 10 * mx + (h - 32) * (mx - v); under = mx }

unfoldable pub grid_line : ℕ → ℕ → ℕ → GridLine
grid_line h mx quarter = record {
  y = record { over = 10 * 4 + (h - 32) * quarter; under = 4 };
  label = round_div (mx * (4 - quarter)) 4;
}

unfoldable pub points_from : ℕ → ℕ → ℕ → ℕ → ℕ → List ℕ → List (Ratio × Ratio)
unfolding x_at y_at
points_from w n h mx i [] = []
points_from w n h mx i (v ∷ vs) = (x_at w n i, y_at h mx v) ∷ points_from w n h mx (suc i) vs

unfoldable pub labels_from : ℕ → ℕ → ℕ → List Text → List (Ratio × Text)
unfolding x_at
labels_from w n i [] = []
labels_from w n i (l ∷ ls) =
    let rest = labels_from w n (suc i) ls in
    if ltb 8 n && not (num_eq (i % 2) 0) then rest else (x_at w n i, l) ∷ rest

-- LineChart, in a window that is `width` wide, and of a height of at least 32.
unfoldable pub line_chart : ℕ → List LineSeries → List Text → ℕ → LineView
unfolding largest grid_line points_from labels_from
line_chart width series labels h =
    let n = length labels in
    let mx = largest (all_values series) in
    let w = width - 64 in
    record {
      grid = map (grid_line h mx) (0 ∷ 1 ∷ 2 ∷ 3 ∷ 4 ∷ []);
      lines =
          map (λ s. record { color = s.color; points = points_from w n h mx 0 s.data_points })
            series;
      labels = labels_from w n 0 labels;
      legend = if ltb 1 (length series) then map (λ s. (s.label, s.color)) series else [];
    }
