-- ===== src/Charts/Rings.antt =====
-- The segments of the ring of a donut chart.
use wachen.Base.{ℕ, ◌+◌, ◌≤◌, ◌<◌, ◌≡◌, refl, List, [], ◌∷◌, Text, arith}
use wachen.Charts.{BarRow, Segment, segments_from, total_of, or_one, donut}

-- The segments lie one after the other, without a gap, from `a` to `b` of `whole` parts of the turn.
abbrev pub Tiles : ℕ → ℕ → ℕ → List Segment → Type 0
Tiles whole a b [] = a ≡ b
Tiles whole a b (s ∷ ss) = (s.whole ≡ whole) × (s.start ≡ a) × (a ≤ s.end) × Tiles whole s.end b ss

segments_from-Tiles :
    (whole acc b : ℕ) (rows : List BarRow)
    → acc + total_of rows ≡ b
    → Tiles whole acc b (segments_from whole acc rows)
unfolding segments_from
segments_from-Tiles whole acc b [] h = omega arith
segments_from-Tiles whole acc b (r ∷ rs) h =
    (refl, refl, omega arith, segments_from-Tiles whole (acc + r.v) b rs (omega arith))

-- The segments of a ring lie one after the other in the order of the rows, and where a row counts
-- something they go around it once: from 0 to the whole turn.
pub donut-Tiles :
    (rows : List BarRow) (center : ℕ) (sub : Text)
    → 0 < total_of rows
    → Tiles (total_of rows) 0 (total_of rows) (donut rows center sub).segments
unfolding donut
donut-Tiles rows center sub h =
    let same : or_one (total_of rows) ≡ total_of rows = ground (arith, h) in
    rw same (segments_from-Tiles (total_of rows) 0 (total_of rows) rows (omega arith))
