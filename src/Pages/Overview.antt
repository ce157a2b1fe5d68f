-- ===== src/Pages/Overview.antt =====
-- The rest of `admin/src/pages/Dashboard.tsx`: its tiles, the cards of the regions, the alerts and the
-- charts, but for the line of the average ratings. The statistics of the whole data, `AGG` and `KPI`,
-- are data.
use wachen.Base.{
  ℕ, ◌*◌, Bool, true, false, List, [], ◌∷◌, map, Option, none, some, Text, utf16, String,
  if◌then◌else◌, ltb, leb, take, drop, sum, length,
}
use wachen.Base.Rounding.{round_div}
use wachen.Domain.{RiskLevel, high, medium, low}
use wachen.Case.{WaCase}
use wachen.Charts.{or_one, DonutView, donut, LineView, line_chart, pct}
use wachen.Drawer.StoreDrawer.{colored_from}
use wachen.Pages.AskAi.{Anomaly, AlertRow, alert_row}
use wachen.Pages.Dashboard.{neg_count, high_open, overdue_count, Dest}

pub record Kpis : Type 0 where
  pub new_reviews : ℕ
  pub sla_rate : ℕ
  pub first_resp_min : ℕ
  pub resolve_hr : ℕ
  pub revisit_rate : ℕ

-- A point of `monthly`; the rating is in tenths.
pub record MonthPoint : Type 0 where
  pub month : Text
  pub reviews : ℕ
  pub neg : ℕ
  pub avg_rating : ℕ

pub record Region : Type 0 where
  pub name : Text
  pub total : ℕ
  pub neg : ℕ
  pub high : ℕ
  pub stores : ℕ
  pub avg_rating : ℕ
  pub neg_rate : ℕ
  pub sla_rate : ℕ

-- A tile; a click on it goes to `to`.
pub record Tile : Type 0 where
  pub v : ℕ
  pub label : String
  pub cls : String
  pub sub : Option ℕ
  pub synth : Bool
  pub to : Option Dest

abbrev tile : ℕ → String → String → Option ℕ → Bool → Option Dest → Tile
tile v label cls sub synth to = record {
  v = v;
  label = label;
  cls = cls;
  sub = sub;
  synth = synth;
  to = to;
}

-- `(sum / (cs.length || 1)).toFixed(2)`, in hundredths
unfoldable pub average : List WaCase → ℕ
average cs = round_div (sum (λ c. c.rating) cs * 100) (or_one (length cs))

unfoldable pub tiles : ℕ → Kpis → List WaCase → List Tile
unfolding average neg_count high_open overdue_count pct
tiles now kpi cs =
    tile (average cs) "集團平均評分" "" none true none
    ∷ tile kpi.new_reviews "新增評論（近30天）" "" (some (length cs)) false none
    ∷ tile (neg_count cs) "負評數" "alarm" (some (pct (neg_count cs) (length cs))) false
        (some Dest.neg)
    ∷ tile (length cs) "客訴案件數" "" none false (some Dest.cases)
    ∷ tile kpi.sla_rate "SLA 達成率" (if ltb kpi.sla_rate 80 then "warnv" else "") none true
        (some Dest.sla)
    ∷ tile kpi.first_resp_min "平均首次回應" "" none true none
    ∷ tile kpi.resolve_hr "平均結案時間" "" none true none
    ∷ tile (high_open cs) "高風險未結" "alarm" none false (some Dest.high)
    ∷ tile (overdue_count now cs) "SLA 逾期" "alarm" none false (some Dest.overdue)
    ∷ tile kpi.revisit_rate "顧客回訪率" "" none true none
    ∷ []

-- The badge of a region.
unfoldable pub region_level : Region → RiskLevel
region_level rg = if leb 35 rg.neg_rate then high else if leb 25 rg.neg_rate then medium else low

unfoldable pub region_label : RiskLevel → String
region_label high = "高風險"
region_label medium = "中風險"
region_label low = "正常"

pub record RegionCard : Type 0 where
  pub region : Region
  pub level : RiskLevel
  pub label : String

unfoldable pub region_card : Region → RegionCard
unfolding region_level region_label
region_card rg = record {
  region = rg;
  level = region_level rg;
  label = region_label (region_level rg);
}

pub record OverviewView : Type 0 where
  pub tiles : List Tile
  pub trend : LineView
  pub causes : DonutView
  pub regions : List RegionCard
  pub alerts : List AlertRow

unfoldable pub overview :
    ℕ
    → Kpis
    → List MonthPoint
    → List (Text × ℕ)
    → List Region
    → List Anomaly
    → List WaCase
    → OverviewView
unfolding tiles line_chart donut colored_from region_card alert_row
overview now kpi monthly category regions anomalies cs =
    let months = map (λ m. drop 2 m.month) monthly in
    record {
      tiles = tiles now kpi cs;
      trend =
          line_chart
            (record {
              label = utf16 "評論量";
              color = "var(--s1)";
              data_points = map (λ m. m.reviews) monthly;
            }
              ∷ record {
                label = utf16 "負評量";
                color = "var(--critical)";
                data_points = map (λ m. m.neg) monthly;
              }
              ∷ [])
            months 180;
      causes = donut (take 7 (colored_from 0 category)) (sum (λ x. x.1) category) (utf16 "問題標記");
      regions = map region_card regions;
      alerts = map alert_row (take 3 anomalies);
    }
