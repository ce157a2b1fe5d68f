-- ===== src/Pages/DetailView/Score.antt =====
-- Where the bar of the score is drawn.
use wachen.Base.{◌≡◌, ◌+◌, ◌≤◌, ◌⊎◌, inl, inr, refl, true, false, Option, none, some, arith}
use wachen.Base.Int.{ℤ, pos, negsuc}
use wachen.Pages.DetailView.{ScoreBar, score_bar}

-- It ends or starts at the middle, on the side of its sign.
abbrev pub FromMiddle : ScoreBar → Type 0
FromMiddle b =
    ((b.negative ≡ true) × (b.left + b.width ≡ 100)) ⊎ ((b.negative ≡ false) × (b.left ≡ 100))

-- Whatever the score, its bar stays within the track: a negative one ends at the middle, any other
-- starts there, and none is longer than half of the track.
pub score_bar-FromMiddle :
    (score : Option ℤ) → FromMiddle (score_bar score) × ((score_bar score).width ≤ 100)
unfolding score_bar
score_bar-FromMiddle none = (inr (refl, refl), omega arith)
score_bar-FromMiddle (some (pos n)) = (inr (refl, refl), omega arith)
score_bar-FromMiddle (some (negsuc n)) = (inl (refl, omega arith), omega arith)
