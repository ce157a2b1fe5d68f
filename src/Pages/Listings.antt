-- ===== src/Pages/Listings.antt =====
-- The rows of the tables of stores (`admin/src/pages/Stores.tsx`, StoreRank of `Dashboard.tsx`), those of
-- `Improve.tsx`, and the rest of `AiInsights.tsx`. Ratings and trends are in tenths, as the data has
-- them.
use wachen.Base.{
  ℕ, ◌*◌, Bool, false, List, [], map, Option, some, or_else, Text, utf16, String, if◌then◌else◌,
  min,
}
use wachen.Base.Int.{pos, ltb_ℤ}
use wachen.Domain.{RiskLevel, risk_label}
use wachen.Case.{WaStore}
use wachen.Ui.{AlertView, DeltaLine, delta_line, alert_row}
use wachen.Pages.Improve.{ImproveRow}
use wachen.Pages.AskAi.{Insights, Anomaly, AskState}
use wachen.Pages.AskAi
use wachen.Pages.StoreTable.{Sorting, rank_rows, store_rows}

-- A row of Stores; a click on it opens the store.
pub record StoreRow : Type 0 where
  pub opens : Text
  pub brand : Text
  pub code : Text
  pub region : Text
  pub manager : Text
  pub rating : ℕ
  pub neg : ℕ
  pub bar : ℕ
  pub open_cases : ℕ
  pub sla_rate : ℕ
  pub risk : RiskLevel
  pub label : String
  pub business : Text

unfoldable pub store_row : WaStore → StoreRow
unfolding risk_label
store_row s = record {
  opens = s.store;
  brand = s.brand_short;
  code = s.code;
  region = s.region;
  manager = s.manager;
  rating = s.avg_rating;
  neg = s.neg;
  bar = min 40 (s.neg * 8);
  open_cases = s.open_cases;
  sla_rate = s.sla_rate;
  risk = s.risk_status;
  label = risk_label s.risk_status;
  business = s.biz_status;
}

unfoldable pub stores_table :
    (Text → Text → Bool) → (Text → Text) → Text → Option Sorting → List WaStore → List StoreRow
unfolding store_rows store_row
stores_table precedes lower q sorting ss = map store_row (store_rows precedes lower q sorting ss)

-- A row of StoreRank; its trend has an arrow and a colour.
pub record RankRow : Type 0 where
  pub opens : Text
  pub brand : Text
  pub region : Text
  pub rating : ℕ
  pub neg : ℕ
  pub neg_rate : ℕ
  pub sla_rate : ℕ
  pub handle_hr : ℕ
  pub trend : DeltaLine
  pub color : String
  pub label : String

unfoldable pub rank_row : WaStore → RankRow
unfolding risk_label delta_line
rank_row s = record {
  opens = s.store;
  brand = s.brand_short;
  region = s.region;
  rating = s.avg_rating;
  neg = s.neg;
  neg_rate = s.neg_rate;
  sla_rate = s.sla_rate;
  handle_hr = s.avg_handle_hr;
  trend = delta_line [] s.trend;
  color = if ltb_ℤ s.trend (pos 0) then "var(--critical)" else "var(--good)";
  label = risk_label s.risk_status;
}

unfoldable pub rank_table : (Text → Text → Bool) → Option Sorting → List WaStore → List RankRow
unfolding rank_rows rank_row
rank_table precedes sorting ss = map rank_row (rank_rows precedes sorting ss)

-- A row of the comparison of before and after.
pub record ComparisonRow : Type 0 where
  pub item : Text
  pub before : Text
  pub after : Text
  pub delta : Text
  pub color : String

unfoldable pub comparison_row : ImproveRow → ComparisonRow
comparison_row r = record {
  item = r.item;
  before = r.before;
  after = r.after;
  delta = r.delta;
  color = if or_else r.good false then "var(--good)" else "var(--critical)";
}

-- AiInsights: the alerts, each with its two buttons, the texts, the suggested questions and the answers.
pub record InsightsView : Type 0 where
  pub alerts : List AlertView
  pub rootcause : Text
  pub suggestions : List Text
  pub questions : List Text
  pub answers : List AlertView

abbrev alert_of : Anomaly → AlertView
alert_of a = let r = wachen.Pages.AskAi.alert_row a in alert_row r.level r.title r.body false

unfoldable pub insights_view : Insights → AskState → InsightsView
unfolding alert_row wachen.Pages.AskAi.alert_row
insights_view i s = record {
  alerts = map alert_of i.anomalies;
  rootcause = i.rootcause;
  suggestions = i.suggestions;
  questions = map (λ x. x.0) i.qa;
  answers = map (λ x. alert_row (some (utf16 "good")) x.0 x.1 false) s.answers;
}
