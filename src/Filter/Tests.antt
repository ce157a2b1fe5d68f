-- ===== src/Filter/Tests.antt =====
-- Runs of the filters of the admin client, with letters left as they are.
use wachen.Base.{◌≡◌, ◌↔◌, refl, [], ◌∷◌, utf16, Text, some, true, ℕ}
use wachen.Base.Predicates.{In}
use wachen.Domain.{high}
use wachen.Case.{ReviewFilters}
use wachen.Db.{no_filters}
use wachen.Filter.Admin.{review_filters}
use wachen.Filter.Exact.{Passes, review_filters_iff}
use wachen.Samples.{open_soup, both}

abbrev as_is : Text → Text
as_is t = t

-- A moment after both deadlines.
abbrev late : ℕ
late = 99999999999999

abbrev overdue_soup : ReviewFilters
overdue_soup = record no_filters { q = utf16 "soup"; risk = some high; overdue = true }

kept : review_filters as_is late overdue_soup both ≡ (open_soup ∷ [])
unfolding review_filters wachen.Time.parse
kept = refl

review_filters_iff_example :
    In open_soup (review_filters as_is late overdue_soup both)
    ↔ (In open_soup both × Passes as_is late overdue_soup open_soup)
review_filters_iff_example = review_filters_iff as_is late overdue_soup open_soup both
