-- ===== src/Charts/Tests.antt =====
-- Runs of the charts.
use wachen.Base.{
  ◌≡◌, refl, ◌≤◌, ℕ, arith, [], ◌∷◌, map, some, none, utf16, List, Text, length, true,
}
use wachen.Base.Predicates.{All}
use wachen.Charts.{BarRow, bar_chart, pct, LineSeries, Polyline, line_chart, Bar}
use wachen.Charts.Frame.{Inside, line_chart-Inside}

abbrev rows : List BarRow
rows =
    record { n = utf16 "food"; v = 3; color = none }
    ∷ record { n = utf16 "service"; v = 1; color = some "red" }
    ∷ []

widths : map (λ (b : Bar). b.width) (bar_chart rows none none true) ≡ (1000 ∷ 333 ∷ [])
unfolding bar_chart
widths = refl

a_third : pct 1 3 ≡ 33
unfolding pct
a_third = refl

abbrev one_line : List LineSeries
one_line = record { label = utf16 "neg"; color = "red"; data_points = 4 ∷ 9 ∷ [] } ∷ []

abbrev months : List Text
months = utf16 "26-06" ∷ utf16 "26-07" ∷ []

tall : 36 ≤ 180
tall = omega arith

abbrev numbers : List ℕ
numbers = 4 ∷ 9 ∷ []

enough : length numbers ≤ length months
enough = omega arith

line_chart-Inside_example :
    All (λ (p : Polyline). All (Inside 180) p.points) (line_chart one_line months 180).lines
line_chart-Inside_example = line_chart-Inside one_line months 180 tall (enough, tt)
