-- ===== src/Pages/Pipeline.antt =====
-- `admin/src/pages/Pipeline.tsx`: the polling, and what the page draws of the statistics. A width is a
-- quotient of percent.
pub mod Polling
use wachen.Base.{
  or_text, ◌≡◌, ℕ, suc, ◌+◌, ◌*◌, Bool, true, false, List, [], ◌∷◌, ◌++◌, map, Option, none, some,
  or_else, Text, utf16, String, text_Eq, ◌==◌, if◌then◌else◌, ltb, leb, sum, length, max, is_empty,
}
use wachen.Domain.{RiskLevel}
use wachen.Api.Types.{PipelineStats, Funnel, Facet, RecentAnalysis, AiStats}
use wachen.Charts.{Ratio, largest, or_one}

-- The variables of the page: `p`, `tick`, the flag `live` of its effect, whether its interval is set, and
-- the requests under way.
pub record Pipeline : Type 0 where
  pub p : Option PipelineStats
  pub tick : ℕ
  pub live : Bool
  pub timer : Bool
  pub requests : ℕ

unfoldable pub opened : Pipeline
opened = record { p = none; tick = 0; live = true; timer = true; requests = 1 }

-- The interval of five seconds.
unfoldable pub ticked : Pipeline → Pipeline
ticked s = record s { tick = suc s.tick; requests = suc s.requests }

-- An answer: `live && setP(r)`.
unfoldable pub arrived : PipelineStats → Pipeline → Pipeline
arrived r s = if s.live then record s { p = some r } else s

-- The clean-up of the effect.
unfoldable pub unmounted : Pipeline → Pipeline
unmounted s = record s { live = false; timer = false }

pub data Step : Pipeline → Pipeline → Type 0 where
  -- The interval goes off only while it is set.
  ticks : (s : Pipeline) → s.timer ≡ true → Step s (ticked s)
  answers : (r : PipelineStats) (s : Pipeline) → Step s (arrived r s)
  leaves : (s : Pipeline) → Step s (unmounted s)

pub data Reach (s : Pipeline) : Pipeline → Type 0 where
  here : Reach s s
  next : {t u : Pipeline} → Reach s t → Step t u → Reach s u

pub record Stage : Type 0 where
  pub key : String
  pub label : String
  pub value : ℕ
  pub note : String
  pub warn : Bool

abbrev stage : String → String → ℕ → String → Bool → Stage
stage key label value note warn = record {
  key = key;
  label = label;
  value = value;
  note = note;
  warn = warn;
}

-- stages
unfoldable pub stages : Funnel → List Stage
stages f =
    stage "raw" "原始擷取" f.raw_reviews "raw_reviews" false
    ∷ stage "review" "已正規化" f.reviews "reviews" false
    ∷ stage "await_ai" "待 AI 分析" f.awaiting_analysis "status=new" (ltb 0 f.awaiting_analysis)
    ∷ stage "analyzed" "已分析" f.analyzed "is_current" false
    ∷ stage "await_route" "待分流" f.awaiting_routing "analyzed 未建案" (ltb 0 f.awaiting_routing)
    ∷ stage "cased" "已建案" f.cased "cases" false
    ∷ []

pub record FunnelRow : Type 0 where
  pub stage : Stage
  pub width : Ratio

-- `Math.max(2, (value / maxV) * 100)`
abbrev pub funnel_row : ℕ → Stage → FunnelRow
funnel_row top s = record {
  stage = s;
  width = record { over = max (2 * top) (100 * s.value); under = top };
}

unfoldable pub funnel : Funnel → List FunnelRow
unfolding stages largest
funnel f = let top = largest (map (λ s. s.value) (stages f)) in map (funnel_row top) (stages f)

-- RISK_LABEL and SENTIMENT_LABEL of the page, with `?? value`.
unfoldable pub risk_label : Text → Text
risk_label v =
    if v == utf16 "high"
    then utf16 "高風險"
    else if v == utf16 "medium"
    then utf16 "中風險"
    else if v == utf16 "low"
    then utf16 "低風險"
    else v

unfoldable pub sentiment_label : Text → Text
sentiment_label v =
    if v == utf16 "negative"
    then utf16 "負面"
    else if v == utf16 "neutral"
    then utf16 "中性"
    else if v == utf16 "positive"
    then utf16 "正面"
    else v

pub record RiskRow : Type 0 where
  pub label : Text
  pub width : Ratio
  pub count : ℕ

abbrev pub risk_row : ℕ → Facet → RiskRow
risk_row total r = record {
  label = risk_label r.value;
  width = record { over = 100 * r.count; under = total };
  count = r.count;
}

unfoldable pub risk_rows : List Facet → List RiskRow
unfolding risk_label
risk_rows rs = map (risk_row (or_one (sum (λ r. r.count) rs))) rs

-- A tile of the engine, with its warning.
pub record Stat : Type 0 where
  pub label : String
  pub value : ℕ
  pub warn : Bool

abbrev stat : String → ℕ → Bool → Stat
stat label value warn = record { label = label; value = value; warn = warn }

unfoldable pub stats : AiStats → List Stat
stats ai =
    stat "現行分析數" ai.total_analyses false
    ∷ stat "平均延遲" ai.avg_latency_ms false
    ∷ stat "最大延遲" ai.max_latency_ms false
    ∷ stat "近 5 分鐘" ai.last_5min false
    ∷ stat "近 1 小時" ai.last_hour false
    ∷ stat "降級 heuristic" ai.fallback_count (ltb 0 ai.fallback_count)
    ∷ stat "隔離毒藥" ai.quarantine_count (ltb 0 ai.quarantine_count)
    ∷ []

pub record RecentRow : Type 0 where
  pub risk : RiskLevel
  pub store : Text
  pub source : Text
  pub model : Text
  pub latency : Option ℕ
  pub created_at : Text
  pub summary : Text

unfoldable pub recent_row : RecentAnalysis → RecentRow
recent_row r = record {
  risk = r.risk_level;
  store = or_text r.store_name (utf16 "未對映門市");
  source = r.source_name;
  model = r.model_name ++ (if r.fallback then utf16 " 降級" else []);
  latency = r.latency_ms;
  created_at = r.created_at;
  summary = or_text r.summary (utf16 "（無摘要）");
}

pub record PipelineView : Type 0 where
  pub funnel : List FunnelRow
  pub models : List Text
  pub stats : List Stat
  pub risk : List RiskRow
  pub sentiment : List (Text × ℕ)
  pub recent : List RecentRow

-- Pipeline; `none` is 「載入中…」.
unfoldable pub view : Option PipelineStats → Option PipelineView
unfolding funnel stats risk_rows sentiment_label recent_row
view none = none
view (some p) = some (record {
  funnel = funnel p.funnel;
  models = p.ai.models;
  stats = stats p.ai;
  risk = risk_rows p.risk;
  sentiment = map (λ s. (sentiment_label s.value, s.count)) p.sentiment;
  recent = map recent_row p.recent;
})
