-- ===== src/Charts/Frame.antt =====
-- Where a line chart draws.
use wachen.Base.{
  ℕ, suc, ◌+◌, ◌-◌, ◌*◌, ◌≤◌, ◌<◌, ◌≡◌, Bool-cases, ap, inl, inr, leb, List, [], ◌∷◌, map, Text,
  arith, length,
}
use native.Mathlib.Nat.{mul-le-mul_left}
use wachen.Base.Predicates.{All, All-of_append}
use wachen.Charts.{
  LineSeries, Ratio, Polyline, x_at, y_at, points_from, all_values, largest, line_chart,
}
use wachen.Charts.Bars.{largest-pos, le-largest}

-- Between `low` and `high`.
abbrev pub Within : ℕ → ℕ → Ratio → Type 0
Within low high r = (0 < r.under) × (low * r.under ≤ r.over) × (r.over ≤ high * r.under)

-- Inside the axes: from 34 to 628 across, and from 12 below the top to 24 above the bottom.
abbrev pub Inside : ℕ → Ratio × Ratio → Type 0
Inside h p = Within 34 628 p.0 × Within 12 (h - 24) p.1

x_at-Within : (n i : ℕ) → i < n → Within 34 628 (x_at n i)
unfolding x_at
x_at-Within n i h = elim (Bool-cases (leb n 1)) [
  | inl e ↦ rw e (omega arith, omega arith, omega arith)
  | inr e ↦ rw e (ground arith, ground arith, ground arith)
]

y_at-Within : (h mx v : ℕ) → 36 ≤ h → 0 < mx → v ≤ mx → Within 12 (h - 24) (y_at h mx v)
unfolding y_at
y_at-Within h mx v tall some_value k =
    let part : (h - 36) * (mx - v) ≤ (h - 36) * mx = mul-le-mul_left (h - 36) (omega arith) in
    let whole : (h - 24) * mx ≡ ((h - 36) + 12) * mx = ap (λ a. a * mx) (omega arith) in
    (some_value, omega arith, omega arith)

module _ (n h mx : ℕ) (tall : 36 ≤ h) (some_value : 0 < mx) where
  points-Inside :
      (i : ℕ) (vs : List ℕ)
      → i + length vs ≤ n
      → All (λ v. v ≤ mx) vs
      → All (Inside h) (points_from n h mx i vs)
  unfolding points_from
  points-Inside i [] k g = tt
  points-Inside i (v ∷ vs) k (g, gs) = (
    (x_at-Within n i (omega arith), y_at-Within h mx v tall some_value g),
    points-Inside (suc i) vs (omega arith) gs,
  )

all_values-bound :
    (ss : List LineSeries) (top : ℕ)
    → All (λ v. v ≤ top) (all_values ss)
    → All (λ s. All (λ v. v ≤ top) s.data_points) ss
all_values-bound [] top h = tt
all_values-bound (s ∷ ss) top h =
    let (first, rest) = All-of_append (λ v. v ≤ top) s.data_points (all_values ss) h in
    (first, all_values-bound ss top rest)

lines-Inside :
    (n h mx : ℕ) (ss : List LineSeries)
    → 36 ≤ h
    → 0 < mx
    → All (λ s. length s.data_points ≤ n) ss
    → All (λ s. All (λ v. v ≤ mx) s.data_points) ss
    → All
        (λ (p : Polyline). All (Inside h) p.points)
        (map (λ s. record { color = s.color; points = points_from n h mx 0 s.data_points }) ss)
lines-Inside n h mx [] tall some_value k g = tt
lines-Inside n h mx (s ∷ ss) tall some_value (k, ks) (g, gs) = (
  points-Inside n h mx tall some_value 0 s.data_points (omega arith) g,
  lines-Inside n h mx ss tall some_value ks gs,
)

-- In a line chart that is at least 36 high and has a label for every number of every series, all the
-- points of all the lines lie inside the axes.
pub line_chart-Inside :
    (series : List LineSeries) (labels : List Text) (h : ℕ)
    → 36 ≤ h
    → All (λ s. length s.data_points ≤ length labels) series
    → All (λ (p : Polyline). All (Inside h) p.points) (line_chart series labels h).lines
unfolding line_chart
line_chart-Inside series labels h tall k =
    let mx = largest (all_values series) in
    lines-Inside (length labels) h mx series tall (largest-pos (all_values series)) k
      (all_values-bound series mx (le-largest (all_values series)))
