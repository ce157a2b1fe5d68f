-- ===== src/Pages/Cases.antt =====
-- `admin/src/pages/Cases.tsx`: the order of the list, its tally and the rows that it draws.
use wachen.Base.{
  ℕ, Bool, List, [], ◌∷◌, map, or_else, Text, if◌then◌else◌, ltb, num_eq, cnt, take, ◌==◌,
}
use wachen.Base.Sort.{sort}
use wachen.Time.{parse}
use wachen.Domain.{
  CaseStatus, unassigned, open_, in_progress, pending_review, pending_customer, done, closed,
  status_Eq, is_active,
}
use wachen.Case.{WaCase, ReviewFilters}
use wachen.Filter.Admin.{review_filters}

-- TALLY
abbrev pub tally_statuses : List CaseStatus
tally_statuses =
    unassigned ∷ open_ ∷ in_progress ∷ pending_review ∷ pending_customer ∷ done ∷ closed ∷ []

-- `isActive(c) ? 0 : 1`
abbrev pub inactive_no : WaCase → ℕ
inactive_no c = if is_active c.cstatus then 0 else 1

-- `Date.parse(due) || 0`, where 0 is the start of 1970, counted as in `Time`.
abbrev pub due : WaCase → ℕ
due c = or_else (parse c.sla_due_at) 62167219200000

-- The comparison of the sort: active cases first, then by deadline.
abbrev pub due_first : WaCase → WaCase → Bool
due_first a b =
    if num_eq (inactive_no a) (inactive_no b)
    then ltb (due a) (due b)
    else ltb (inactive_no a) (inactive_no b)

unfoldable pub listed : (Text → Text) → ℕ → ReviewFilters → List WaCase → List WaCase
unfolding review_filters sort
listed lower now rf scope = sort due_first (review_filters lower now rf scope)

-- The counts above the table.
unfoldable pub tally : List WaCase → List (CaseStatus × ℕ)
tally cs = map (λ s. (s, cnt (λ c. c.cstatus == s) cs)) tally_statuses

-- The table draws the first 120.
unfoldable pub rows : List WaCase → List WaCase
rows cs = take 120 cs
