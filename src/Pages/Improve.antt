-- ===== src/Pages/Improve.antt =====
-- `admin/src/pages/Improve.tsx`: the rows that a role sees, and the ranking of the stores by their trend.
pub mod Bars
use wachen.Base.{
  Bool, List, map, Option, or_else, is_some, Text, String, text_Eq, if◌then◌else◌, take, ltb,
  length,
}
use wachen.Base.Int.{ℤ, pos, ltb_ℤ}
use wachen.Base.Sort.{sort}
use wachen.Case.{WaStore}
use wachen.Roles.Table.{Role}
use wachen.Roles.Scope.{truthy}

pub record ImproveRow : Type 0 where
  pub item : Text
  pub before : Text
  pub after : Text
  pub delta : Text
  pub good : Option Bool

-- `(getRole().brand ? DB.improve_rows_tk : null) ?? DB.improve.rows`
unfoldable pub rows_for : Role → Option (List ImproveRow) → List ImproveRow → List ImproveRow
rows_for role of_tenant general =
    if is_some (truthy role.brand) then or_else of_tenant general else general

pub record TrendRow : Type 0 where
  pub n : Text
  pub v : ℤ
  pub color : String

abbrev pub trend_row : WaStore → TrendRow
trend_row s = record {
  n = if ltb 10 (length s.store) then take 10 s.store else s.store;
  v = s.trend;
  color = if ltb_ℤ s.trend (pos 0) then "var(--critical)" else "var(--good)";
}

-- storeRank and its bars, for the stores in scope.
unfoldable pub store_rank : List WaStore → List TrendRow
unfolding sort
store_rank ss = map trend_row (take 8 (sort (λ a b. ltb_ℤ b.trend a.trend) ss))
