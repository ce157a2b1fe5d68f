-- ===== src/Pages/Boards.antt =====
-- What `admin/src/pages/StoreBoard.tsx` and `admin/src/pages/SlaMonitor.tsx` draw from the numbers of
-- `Pages.StoreBoard` and `Pages.Sla`. `digits` is `String(n)`; a rating is in tenths.
use wachen.Base.{
  ℕ, ◌+◌, ◌-◌, Bool, true, false, ◌&&◌, List, [], ◌∷◌, ◌++◌, map, none, some, or_else, Text, utf16,
  String, if◌then◌else◌, ltb, take, length, head?, num_eq, min, max,
}
use wachen.Base.Int.{ℤ, pos, ltb_ℤ}
use wachen.Base.Strip.{without}
use wachen.Domain.{RiskLevel, risk_label, case_status_label}
use wachen.Case.{WaCase, WaStore}
use wachen.Charts.{BarRow, Bar, bar_chart}
use wachen.Drawer.Facts.{fmt_d, fmt_dt}
use wachen.Pages.Sla.{overdue, soon, by_brand, Row, rows}
use wachen.Pages.StoreBoard.{Reminder, over_sla, new_high, attitude, rating_change, Board}

pub record Tile : Type 0 where
  pub v : ℕ
  pub label : String
  pub cls : String
  pub synth : Bool

-- The tiles of the deadlines; `hours` is the mean time to an end. A rate is at least 50 even where 4 is
-- more than the rate, so the subtraction may stop at 0.
unfoldable pub sla_tiles : ℕ → ℕ → ℕ → List WaCase → List Tile
unfolding overdue soon
sla_tiles now rate hours cs =
    record {
      v = rate;
      label = "整體 SLA 達成率";
      cls = if ltb rate 80 then "warnv" else "";
      synth = true;
    }
    ∷ record { v = min 99 (rate + 6); label = "首次回應達成率"; cls = ""; synth = true }
    ∷ record { v = max 50 (rate - 4); label = "結案達成率"; cls = ""; synth = true }
    ∷ record { v = length (overdue now cs); label = "已逾期案件"; cls = "alarm"; synth = false }
    ∷ record { v = length (soon now cs); label = "即將逾期"; cls = "warnv"; synth = false }
    ∷ record { v = hours; label = "平均處理時間"; cls = ""; synth = true }
    ∷ []

unfoldable pub brand_row : Text × ℕ → BarRow
brand_row b = record {
  n = if ltb 6 (length b.0) then take 6 b.0 else b.0;
  v = b.1;
  color = some (
      if ltb b.1 75
      then "var(--critical)"
      else if ltb b.1 85
      then "var(--warning)"
      else "var(--good)");
}

-- A row of the table of the deadlines.
pub record SlaRow : Type 0 where
  pub opens : Text
  pub code : Text
  pub store : Text
  pub risk : String
  pub assignee : Text
  pub status : String
  pub level : RiskLevel
  pub label : String

unfoldable pub sla_row : Row → SlaRow
unfolding risk_label case_status_label
sla_row r = record {
  opens = r.case.id;
  code = r.case.code;
  store = r.case.store;
  risk = risk_label r.case.risk_level;
  assignee = r.case.assignee;
  status = case_status_label r.case.cstatus;
  level = r.level;
  label = r.label;
}

pub record SlaView : Type 0 where
  pub tiles : List Tile
  pub brands : List Bar
  pub heading : ℕ
  pub table : List SlaRow
  pub nothing : Bool

unfoldable pub sla_view : (ℕ → Text) → ℕ → ℕ → ℕ → List WaStore → List WaCase → SlaView
unfolding sla_tiles bar_chart brand_row by_brand overdue soon rows sla_row
sla_view digits now rate hours stores cs = record {
  tiles = sla_tiles now rate hours cs;
  brands =
      bar_chart (map brand_row (by_brand stores)) none (some (λ v. digits v ++ utf16 "%")) false;
  heading = length (overdue now cs) + length (soon now cs);
  table = map sla_row (rows now cs);
  nothing = num_eq (length (overdue now cs)) 0 && num_eq (length (soon now cs)) 0;
}

-- A reminder as it is written; `tenths` writes a change of the rating.
pub record Alert : Type 0 where
  pub level : String
  pub title : Text
  pub body : Text

unfoldable pub alert : (ℕ → Text) → (ℤ → Text) → Reminder → Alert
alert digits tenths (over_sla n) = record {
  level = "critical";
  title = utf16 "有 " ++ digits n ++ utf16 " 筆案件已超過 SLA 未處理";
  body = utf16 "請立即處理或指派人員";
}
alert digits tenths (new_high n summary) = record {
  level = "critical";
  title = utf16 "新增 " ++ digits n ++ utf16 " 筆高風險評論";
  body = summary;
}
alert digits tenths attitude = record {
  level = "warning";
  title = utf16 "本週「服務態度」負評上升";
  body = utf16 "建議檢視尖峰時段排班與新人訓練";
}
alert digits tenths (rating_change trend falls) = record {
  level = "serious";
  title = utf16 "平均評分較上月變化 " ++ (if ltb_ℤ trend (pos 0) then [] else utf16 "+") ++ tenths trend;
  body = if falls then utf16 "需關注下降趨勢" else utf16 "維持良好";
}

-- A row of the latest reviews of the store.
pub record RecentRow : Type 0 where
  pub opens : Text
  pub posted : Text
  pub platform : Text
  pub rating : ℕ
  pub summary : Text
  pub category : Text
  pub risk : String
  pub status : String
  pub assignee : Text

unfoldable pub recent_row : WaCase → RecentRow
unfolding fmt_d risk_label case_status_label
recent_row c = record {
  opens = c.id;
  posted = fmt_d c.posted_at;
  platform = c.platform;
  rating = c.rating;
  summary = take 50 c.summary;
  category = or_else (head? c.categories) (utf16 "—");
  risk = risk_label c.risk_level;
  status = case_status_label c.cstatus;
  assignee = without (utf16 "店經理 · ") c.assignee;
}

pub record StoreView : Type 0 where
  pub title : Text
  pub sub : Text
  pub rating : ℕ
  pub rating_delta : ℤ
  pub total : ℕ
  pub neg : ℕ
  pub open_count : ℕ
  pub open_cls : String
  pub overdue : ℕ
  pub rank : Text
  pub rank_label : Text
  pub alerts : List Alert
  pub recent : List RecentRow

-- `reference` is `META.generated_ref`.
unfoldable pub store_view : (ℕ → Text) → (ℤ → Text) → Text → Text → Board → StoreView
unfolding fmt_dt alert recent_row
store_view digits tenths reference name b =
    let so = b.store in
    let dot = utf16 " · " in
    record {
      title = name;
      sub =
          so.brand
          ++ dot
          ++ so.region
          ++ dot
          ++ so.city
          ++ utf16 " · 店經理 "
          ++ so.manager
          ++ utf16 " · 營業中 · 最後更新 "
          ++ fmt_dt reference;
      rating = so.avg_rating;
      rating_delta = so.trend;
      total = b.total;
      neg = b.neg;
      open_count = b.open_count;
      open_cls = if ltb 0 b.open_count then "warnv" else "";
      overdue = b.overdue;
      rank = digits b.rank ++ utf16 "/" ++ digits b.in_region;
      rank_label = so.region ++ utf16 "區域排名";
      alerts = map (alert digits tenths) b.reminders;
      recent = map recent_row b.recent;
    }
