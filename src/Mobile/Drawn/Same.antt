-- ===== src/Mobile/Drawn/Same.antt =====
-- The rings of both clients.
use wachen.Base.{◌≡◌, refl, ℕ, ◌+◌, List, [], ◌∷◌, Text, Option}
use wachen.Base.Predicates.{Pairs}
use wachen.Charts.{BarRow, Segment, segments_from, total_of, or_one}
use wachen.Charts
use wachen.Mobile.Drawn.{Arc, arcs_from, donut}

-- A segment of the one is an arc of the other.
abbrev pub SameArc : Segment → Arc → Type 0
SameArc s a =
    (s.start ≡ a.offset) × (s.end ≡ a.offset + a.frac) × (s.whole ≡ a.whole) × (s.color ≡ a.color)

arcs_from-SameArc :
    (whole acc : ℕ) (rows : List BarRow)
    → Pairs SameArc (segments_from whole acc rows) (arcs_from whole acc rows)
unfolding segments_from arcs_from
arcs_from-SameArc whole acc [] = tt
arcs_from-SameArc whole acc (r ∷ rs) =
    ((refl, refl, refl, refl), arcs_from-SameArc whole (acc + r.v) rs)

-- For the same rows, the rings of both clients have the same segments in the same order: each starts and
-- ends at the same part of the turn, in the same colour.
pub donut-SameArc :
    (rows : List BarRow) (center : ℕ) (center_text sub : Text) (label : Option Text)
    → Pairs SameArc
        (wachen.Charts.donut rows center sub).segments
        (donut rows center_text label).arcs
unfolding donut wachen.Charts.donut
donut-SameArc rows center center_text sub label = arcs_from-SameArc (or_one (total_of rows)) 0 rows
