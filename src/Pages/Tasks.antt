-- ===== src/Pages/Tasks.antt =====
-- `admin/src/pages/Tasks.tsx`: the tasks of the brands in scope, the tiles and the marks of a row.
use wachen.Base.{
  ℕ, List, [], ◌∷◌, map, Text, utf16, String, text_Eq, ◌==◌, if◌then◌else◌, filter, includes, cnt,
}
use wachen.Domain.{RiskLevel, high, medium}
use wachen.Case.{WaCase}

pub record Task : Type 0 where
  pub id : Text
  pub name : Text
  pub category : Text
  pub store : Text
  pub brand : Text
  pub region : Text
  pub owner : Text
  pub collab : Text
  pub start : Text
  pub due : Text
  pub priority : Text
  pub status : Text
  pub kpi : Text
  pub verify : Text
  pub progress : ℕ
  pub source : Text

-- STATUSES
abbrev pub statuses : List Text
statuses = utf16 "待開始" ∷ utf16 "進行中" ∷ utf16 "待驗證" ∷ utf16 "已完成" ∷ utf16 "延遲" ∷ []

-- `T`, for the cases in scope.
unfoldable pub tasks_of : List WaCase → List Task → List Task
tasks_of cs ts = filter (λ t. includes t.brand (map (λ c. c.brand_short) cs)) ts

unfoldable pub tiles : List Task → List (Text × ℕ)
tiles ts = map (λ s. (s, cnt (λ t. t.status == s) ts)) statuses

pub record TaskRow : Type 0 where
  pub task : Task
  pub badge : RiskLevel
  pub pill : String

unfoldable pub task_row : Task → TaskRow
task_row t = record {
  task = t;
  badge = if t.priority == utf16 "高" then high else medium;
  pill =
      if t.status == utf16 "已完成"
      then "done"
      else if t.status == utf16 "延遲"
      then "open"
      else "in_progress";
}

pub record TasksView : Type 0 where
  pub tiles : List (Text × ℕ)
  pub rows : List TaskRow

-- Tasks
unfoldable pub tasks_view : List WaCase → List Task → TasksView
unfolding tasks_of tiles task_row
tasks_view cs all = record {
  tiles = tiles (tasks_of cs all);
  rows = map task_row (tasks_of cs all);
}
