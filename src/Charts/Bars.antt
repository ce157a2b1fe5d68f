-- ===== src/Charts/Bars.antt =====
-- The widths of bars and the sizes of words.
use wachen.Base.{
  ℕ, zero, suc, ◌+◌, ◌*◌, ◌≤◌, ◌<◌, ◌≡◌, refl, Bool, false, List, [], ◌∷◌, map, Option, Text, arith,
  max, num_eq, take, or_else,
}
use wachen.Base.Predicates.{All, All-imp, All-take, Pairs}
use wachen.Base.Rounding.{Near, round_div_le, le_round_div, round_div-Near}
use wachen.Charts.{
  BarRow, Bar, CloudWord, largest, values, total_of, pct, bar, bars_from, bar_chart, cloud_word,
  kw_cloud,
}

pub largest-pos : (vs : List ℕ) → 0 < largest vs
unfolding largest
largest-pos [] = omega arith
largest-pos (v ∷ vs) = omega (arith, largest-pos vs)

pub le-largest : (vs : List ℕ) → All (λ v. v ≤ largest vs) vs
unfolding largest
le-largest [] = tt
le-largest (v ∷ vs) = (
  omega arith,
  All-imp (λ w. w ≤ largest vs) (λ w. w ≤ max v (largest vs)) (λ w h. omega arith) vs
      (le-largest vs),
)

pub All-values {κ} :
    {A : Type 0} (f : A → ℕ) (P : ℕ → Type κ) (xs : List A)
    → All P (map f xs)
    → All (λ x. P (f x)) xs
All-values f P [] h = tt
All-values f P (x ∷ xs) (h, hs) = (h, All-values f P xs hs)

-- The bar of a row has its name and its number, it fits into the track, and its width is the row's
-- share of the largest number, in tenths of a percent, up to rounding.
abbrev pub Drawn : ℕ → BarRow → Bar → Type 0
Drawn top r b = (b.title ≡ r.n) × (b.width ≤ 1000) × Near b.width (1000 * r.v) top

bars_from-Drawn :
    (fmt : Option (ℕ → Text)) (show : Bool) (top total i : ℕ) (rows : List BarRow)
    → 0 < top
    → All (λ r. r.v ≤ top) rows
    → Pairs (Drawn top) rows (bars_from fmt show top total i rows)
unfolding bars_from bar
bars_from-Drawn fmt show top total i [] h hs = tt
bars_from-Drawn fmt show top total i (r ∷ rs) h (k, ks) = (
  (refl, round_div_le (1000 * r.v) top 1000 h (omega arith), round_div-Near (1000 * r.v) top h),
  bars_from-Drawn fmt show top total (suc i) rs h ks,
)

-- A bar chart has one bar for each row, in the order of the rows: none leaves its track, and each is as
-- wide as its share of the largest number, up to the rounding to a tenth of a percent.
pub bar_chart-Drawn :
    (rows : List BarRow) (tot : Option ℕ) (fmt : Option (ℕ → Text)) (show : Bool)
    → Pairs (Drawn (largest (values rows))) rows (bar_chart rows tot fmt show)
unfolding bar_chart
bar_chart-Drawn rows tot fmt show =
    bars_from-Drawn fmt show (largest (values rows)) (or_else tot (total_of rows)) 0 rows
      (largest-pos (values rows))
      (All-values (λ r. r.v) (λ v. v ≤ largest (values rows)) rows (le-largest (values rows)))

-- A part has at most a hundred percent of its whole.
pub pct_le : (a b : ℕ) → a ≤ b → pct a b ≤ 100
unfolding pct
pct_le a zero h = omega arith
pct_le a (suc b) h =
    let some_whole : num_eq (suc b) 0 ≡ false = ground arith in
    rw some_whole (round_div_le (a * 100) (suc b) 100 (omega arith) (omega arith))

abbrev pub Readable : CloudWord → Type 0
Readable w = (13 ≤ w.size) × (w.size ≤ 26) × (w.ground.over ≤ 40 * w.ground.under)

cloud-Readable :
    (top : ℕ) (ks : List (Text × ℕ))
    → 0 < top
    → All (λ k. k.1 ≤ top) ks
    → All Readable (map (cloud_word top) ks)
unfolding cloud_word
cloud-Readable top [] h hs = tt
cloud-Readable top ((k, v) ∷ ks) h (g, gs) = (
  (
    le_round_div (13 * top + 13 * v) top 13 h (omega arith),
    round_div_le (13 * top + 13 * v) top 26 h (omega arith),
    omega arith,
  ),
  cloud-Readable top ks h gs,
)

-- The words of the keyword cloud are between 13 and 26 pixels high, and their ground has at most 40 %
-- of the base colour.
pub kw_cloud-Readable : (ks : List (Text × ℕ)) → All Readable (kw_cloud ks)
unfolding kw_cloud
kw_cloud-Readable ks =
    let vs = map (λ k. k.1) ks in
    cloud-Readable (largest vs) (take 30 ks) (largest-pos vs) (
      All-take (λ k. k.1 ≤ largest vs) 30 ks
        (All-values (λ k. k.1) (λ v. v ≤ largest vs) ks (le-largest vs)))
