-- ===== src/Pages/Reviews.antt =====
-- `admin/src/pages/Reviews.tsx`: the order of the list and the rows that it draws. `precedes a b` says
-- that `a.localeCompare(b)` is negative.
use wachen.Base.{ℕ, Bool, ◌&&◌, ◌||◌, List, Text, ltb, num_eq, length, take}
use wachen.Base.Sort.{sort}
use wachen.Domain.{risk_rank}
use wachen.Case.{WaCase, ReviewFilters}
use wachen.Filter.Admin.{review_filters}

-- The comparison of the sort.
abbrev pub risk_first : (Text → Text → Bool) → WaCase → WaCase → Bool
risk_first precedes a b =
    ltb (risk_rank b.risk_level) (risk_rank a.risk_level)
    || (num_eq (risk_rank b.risk_level) (risk_rank a.risk_level)
        && precedes b.posted_at a.posted_at)

unfoldable pub listed :
    (Text → Text → Bool) → (Text → Text) → ℕ → ReviewFilters → List WaCase → List WaCase
unfolding review_filters sort
listed precedes lower now rf scope = sort (risk_first precedes) (review_filters lower now rf scope)

unfoldable pub rows : List WaCase → List WaCase
rows cs = take 120 cs

-- The note below the table is drawn where rows are left out.
unfoldable pub has_more : List WaCase → Bool
has_more cs = ltb 120 (length cs)
