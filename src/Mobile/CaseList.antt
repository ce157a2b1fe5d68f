-- ===== src/Mobile/CaseList.antt =====
-- `mobile/app/(tabs)/cases.tsx`: the groups of statuses, and the rows of the one that is chosen.
pub mod Groups
use wachen.Base.{
  ◌≡◌, ℕ, List, [], ◌∷◌, map, Option, none, some, String, filter, length, includes, get_elem?,
}
use wachen.Domain.{
  CaseStatus, unassigned, open_, in_progress, pending_review, pending_customer, done, closed,
  status_Eq,
}
use wachen.Mobile.Domain.{Case}

pub record Group : Type 0 where
  pub label : String
  pub statuses : Option (List CaseStatus)

-- GROUPS
abbrev pub everything : Group
everything = record { label = "全部"; statuses = none }

abbrev pub to_assign : Group
to_assign = record { label = "待分派"; statuses = some (unassigned ∷ []) }

abbrev pub under_way : Group
under_way = record {
  label = "進行中";
  statuses = some (open_ ∷ in_progress ∷ pending_customer ∷ pending_review ∷ []);
}

abbrev pub finished : Group
finished = record { label = "已完成"; statuses = some (done ∷ closed ∷ []) }

abbrev pub groups : List Group
groups = everything ∷ to_assign ∷ under_way ∷ finished ∷ []

abbrev of_statuses : Option (List CaseStatus) → List Case → List Case
of_statuses none cs = cs
of_statuses (some ss) cs = filter (λ c. includes c.cstatus ss) cs

-- The rows of a group, and the number on its chip.
unfoldable pub rows : Group → List Case → List Case
rows g cs = of_statuses g.statuses cs

unfoldable pub count : Group → List Case → ℕ
unfolding rows
count g cs = length (rows g cs)

pub record ListView : Type 0 where
  pub chips : List (String × ℕ)
  pub rows : List Case

abbrev rows_at : Option Group → List Case → List Case
rows_at none cs = []
rows_at (some g) cs = rows g cs

-- Cases, with the chosen group by its index, which is that of a chip.
unfoldable pub case_list : ℕ → List Case → ListView
unfolding count
case_list group cs = record {
  chips = map (λ g. (g.label, count g cs)) groups;
  rows = rows_at (get_elem? groups group) cs;
}
