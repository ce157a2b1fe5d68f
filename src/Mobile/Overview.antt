-- ===== src/Mobile/Overview.antt =====
-- `mobile/app/(tabs)/index.tsx`: the tiles and the charts of the overview, for the cases in scope. An
-- average is exact, in hundredths.
use wachen.Base.{
  ℕ, ◌*◌, Bool, true, false, ◌&&◌, List, [], ◌∷◌, ◌++◌, map, Option, none, some, Text, utf16,
  String, ◌==◌, if◌then◌else◌, cnt, length, sum, take, drop, ltb,
}
use wachen.Base.Rounding.{round_div}
use wachen.Time.{parse}
use wachen.Domain.{
  high, medium, low, risk_Eq, risk_label, Sentiment, negative, neutral, positive, sentiment_Eq,
  sent_label, is_active,
}
use wachen.Filter.Admin.{is_past}
use wachen.Charts.{BarRow, LineView}
use wachen.Mobile.Domain.{Case}
use wachen.Mobile.Facets.{Facets}
use wachen.Mobile.CaseItem.{Tone, default, alarm, warn, risk_color}
use wachen.Mobile.Drawn.{Bar, bar_chart, DonutView, donut, line_chart, share}

-- KpiCard: `to` is where a press leads.
pub record KpiCard : Type 0 where
  pub value : Option ℕ
  pub label : String
  pub tone : Tone
  pub percent : Option ℕ
  pub synthetic : Bool
  pub to : Option String

abbrev card : Option ℕ → String → Tone → Option ℕ → Option String → KpiCard
card value label tone percent to = record {
  value = value;
  label = label;
  tone = tone;
  percent = percent;
  synthetic = false;
  to = to;
}

-- `'—'` without cases.
unfoldable pub average : List Case → Option ℕ
average [] = none
average (c ∷ cs) = some (round_div (sum (λ d. d.rating) (c ∷ cs) * 100) (length (c ∷ cs)))

unfoldable pub neg_count : List Case → ℕ
neg_count cs = cnt (λ c. c.sentiment == negative) cs

unfoldable pub high_open : List Case → ℕ
high_open cs = cnt (λ c. c.risk_level == high && is_active c.cstatus) cs

unfoldable pub overdue_count : ℕ → List Case → ℕ
overdue_count now cs = cnt (λ c. is_active c.cstatus && is_past (parse c.sla_due_at) now) cs

abbrev sla_card : Option Facets → List KpiCard
sla_card none = []
sla_card (some f) =
    record {
      value = some f.agg.kpis.sla_rate;
      label = "SLA 達成率";
      tone = if ltb f.agg.kpis.sla_rate 80 then warn else default;
      percent = none;
      synthetic = true;
      to = some "/more/sla";
    }
    ∷ []

unfoldable pub cards : ℕ → List Case → Option Facets → List KpiCard
unfolding average neg_count high_open overdue_count
cards now cs facets =
    record {
      value = average cs;
      label = "平均評分";
      tone = default;
      percent = none;
      synthetic = true;
      to = none;
    }
    ∷ card (some (neg_count cs)) "負評數" alarm (some (percent_of cs)) (some "/reviews")
    ∷ card (some (length cs)) "客訴案件數" default none (some "/cases")
    ∷ (sla_card facets
        ++ card (some (high_open cs)) "高風險未結" alarm none none
          ∷ card (some (overdue_count now cs)) "SLA 逾期" alarm none none
          ∷ [])
  where
    percent_of : List Case → ℕ
    percent_of [] = 0
    percent_of (x ∷ xs) = share (neg_count (x ∷ xs)) (length (x ∷ xs))

unfoldable pub risk_rows : List Case → List BarRow
unfolding risk_label
risk_rows cs =
    map
      (λ k. record {
        n = utf16 (risk_label k);
        v = cnt (λ c. c.risk_level == k) cs;
        color = some (risk_color k);
      })
      (high ∷ medium ∷ low ∷ [])

abbrev sent_color : Sentiment → String
sent_color negative = "critical"
sent_color neutral = "muted"
sent_color positive = "good"

unfoldable pub sentiment_rows : List Case → List BarRow
unfolding sent_label
sentiment_rows cs =
    map
      (λ k. record {
        n = utf16 (sent_label k);
        v = cnt (λ c. c.sentiment == k) cs;
        color = some (sent_color k);
      })
      (negative ∷ neutral ∷ positive ∷ [])

-- The colours in turn, from the first: `colors[i % 8]` for at most seven rows.
abbrev colored : List String → List (Text × ℕ) → List BarRow
colored (c ∷ cs) (x ∷ xs) = record { n = x.0; v = x.1; color = some c } ∷ colored cs xs
colored _ _ = []

pub record OverviewCharts : Type 0 where
  pub trend : LineView
  pub causes : DonutView
  pub risk : List Bar
  pub sentiment : List Bar

-- The charts, which are drawn once the facets are there. `digits` is `String(n)`.
unfoldable pub charts : (ℕ → Text) → List String → ℕ → List Case → Facets → OverviewCharts
unfolding line_chart donut bar_chart risk_rows sentiment_rows
charts digits colors width cs f = record {
  trend =
      line_chart width
        (record {
          label = utf16 "評論量";
          color = "s1";
          data_points = map (λ m. m.reviews) f.agg.monthly;
        }
          ∷ record {
            label = utf16 "負評量";
            color = "critical";
            data_points = map (λ m. m.neg) f.agg.monthly;
          }
          ∷ [])
        (map (λ m. drop 2 m.month) f.agg.monthly) 180;
  causes =
      donut (colored colors (take 7 f.agg.category)) (digits (sum (λ x. x.1) f.agg.category))
        (some (utf16 "問題標記"));
  risk = bar_chart (risk_rows cs) true none;
  sentiment = bar_chart (sentiment_rows cs) true none;
}
