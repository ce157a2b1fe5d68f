-- ===== src/Pages/AskAi.antt =====
-- `admin/src/pages/AiInsights.tsx`: which insights a role sees, and the questions. `trim` is `trim()`.
use wachen.Base.{
  Bool, ◌||◌, List, [], ◌∷◌, Option, none, some, or_else, is_some, Text, utf16, if◌then◌else◌,
  is_empty, find, take, has_substring,
}
use wachen.Roles.Table.{Role}
use wachen.Roles.Scope.{truthy}

pub record Anomaly : Type 0 where
  pub t : Option Text
  pub d : Option Text
  pub title : Option Text
  pub body : Option Text
  pub sev : Option Text
  pub level : Option Text

pub record Insights : Type 0 where
  pub anomalies : List Anomaly
  pub rootcause : Text
  pub suggestions : List Text
  pub qa : List (Text × Text)

-- `(getRole().brand ? DB.insights_tk : null) ?? DB.insights`
unfoldable pub insights_for : Role → Option Insights → Insights → Insights
insights_for role of_tenant general =
    if is_some (truthy role.brand) then or_else of_tenant general else general

-- `x ?? y ?? ""` of the alerts, and their level.
pub record AlertRow : Type 0 where
  pub level : Option Text
  pub title : Text
  pub body : Text

abbrev either : Option Text → Option Text → Option Text
either none b = b
either (some a) b = some a

unfoldable pub alert_row : Anomaly → AlertRow
alert_row a = record {
  level = either a.sev a.level;
  title = or_else (either a.t a.title) [];
  body = or_else (either a.d a.body) [];
}

pub record AskState : Type 0 where
  pub q : Text
  pub answers : List (Text × Text)

unfoldable pub opened : Insights → AskState
opened i = record { q = []; answers = i.qa }

abbrev pub no_answer : Text
no_answer = utf16 "（POC 示範）此問題正式版將由 LLM 即時查詢資料後回答。目前可試問清單中的預設問題。"

-- Whether the question of an entry fits the query.
abbrev pub fits : Text → Text × Text → Bool
fits query x = has_substring query (take 4 x.0) || has_substring x.0 (take 4 query)

abbrev pub answer_of : Option (Text × Text) → Text
answer_of none = no_answer
answer_of (some x) = x.1

unfoldable pub ask : (Text → Text) → Insights → AskState → AskState
ask trim i s =
    let query = trim s.q in
    if is_empty query
    then s
    else record { q = []; answers = (query, answer_of (find (fits query) i.qa)) ∷ s.answers }
