-- ===== src/Pages/Voice/Counts.antt =====
-- What the tiles and the ring of the sentiments count.
use wachen.Base.{
  ◌≡◌, ℕ, ◌+◌, ◌*◌, ◌≤◌, ◌<◌, Bool, List, [], ◌∷◌, Text, arith, length, sum, subst, sym, utf16,
  refl,
}
use wachen.Base.Predicates.{All}
use wachen.Base.Rounding.{round_div_le}
use wachen.Domain.{positive, neutral, negative, sentiment_Eq}
use wachen.Case.{WaCase}
use wachen.Charts.{BarRow, total_of, or_one, donut}
use wachen.Charts.Rings.{Tiles, donut-Tiles}
use wachen.Pages.Voice.{of_sentiment, sent_rows, average, tile, voice}

ratings_le :
    (cs : List WaCase) → All (λ c. c.rating ≤ 5) cs → sum (λ c. c.rating) cs ≤ 5 * length cs
ratings_le [] h = omega arith
ratings_le (c ∷ cs) (h, hs) = omega (arith, ratings_le cs hs)

donut-center :
    (rows : List BarRow) (center : ℕ) (sub : Text) → (donut rows center sub).center ≡ center
unfolding donut
donut-center rows center sub = refl

each_once :
    (cs : List WaCase)
    → of_sentiment positive cs + (of_sentiment neutral cs + of_sentiment negative cs) ≡ length cs
each_once [] = omega arith
each_once (c ∷ cs) = ground (arith, each_once cs)

sent_rows-total : (cs : List WaCase) → total_of (sent_rows cs) ≡ length cs
unfolding sent_rows
sent_rows-total cs = omega (arith, each_once cs)

-- Every case is counted on exactly one of the three tiles, and the ring of the sentiments goes around
-- once: its segments lie one after the other, from 0 to the number of the cases, which is also the
-- number at its centre.
voice-Tiles :
    (precedes : Text → Text → Bool) (cs : List WaCase)
    → 0 < length cs
    → let w = voice precedes cs in
      (w.positive.v + (w.neutral.v + w.negative.v) ≡ length cs)
      × (w.sentiments.center ≡ length cs)
      × Tiles (length cs) 0 (length cs) w.sentiments.segments
unfolding voice tile
voice-Tiles precedes cs h = (
  each_once cs,
  donut-center (sent_rows cs) (length cs) (utf16 "則評論"),
  subst (λ n. Tiles n 0 n (donut (sent_rows cs) (length cs) (utf16 "則評論")).segments)
      (sent_rows-total cs)
      (donut-Tiles (sent_rows cs) (length cs) (utf16 "則評論")
        (subst (λ n. 0 < n) (sym (sent_rows-total cs)) h)),
)

-- The average shown is five stars at most where no rating is higher.
pub average_le : (cs : List WaCase) → All (λ c. c.rating ≤ 5) cs → average cs ≤ 500
unfolding average
average_le [] h = omega arith
average_le (c ∷ cs) h =
    let n = length (c ∷ cs) in
    let same : or_one n ≡ n = ground arith in
    rw same (
      round_div_le (sum (λ d. d.rating) (c ∷ cs) * 100) n 500 (omega arith)
        (omega (arith, ratings_le (c ∷ cs) h)))
