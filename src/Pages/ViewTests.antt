-- ===== src/Pages/ViewTests.antt =====
-- Runs of the pages that draw tables, charts and queues.
use wachen.Base.{
  some, cnt, not, ◌≡◌, refl, inl, ℕ, ◌<◌, ltb, arith, [], ◌∷◌, List, false, utf16, Text, length,
  Bool, map,
}
use wachen.Base.Int.{pos, negsuc}
use wachen.Base.Predicates.{In, Pairs}
use wachen.Base.Sort.{IsSorted, sort}
use wachen.Domain.{RiskLevel}
use wachen.Case.{WaStore}
use wachen.Api.{Message}
use wachen.Samples.{raws, both, about_soup, about_nothing}
use wachen.Db.{App, absent, start}
use wachen.Roles.Table.{roles, hq}
use wachen.Pages.Notifications.{listed, mark_listed}
use wachen.Pages.Notifications.Marking.{mark_listed-unread}
use wachen.Pages.StoreTable.{neg}
use wachen.Pages.Improve.{store_rank}
use wachen.Pages.Improve.Bars.{TrendBar, Fits, wider, store_bars, store_bars_lem}
use wachen.Pages.Approvals.{
  Approvals, approve, decide, clicks, opened, load, loaded, fulfilled, polls, loads, Reach, here,
  next,
}
use wachen.Pages.Approvals.Queue.{wire, all_due, queue-sent}
use wachen.Pages.Pipeline.{Pipeline, arrived, unmounted}
use wachen.Pages.Pipeline
use wachen.Pages.Boards
use wachen.Pages.Sla
use wachen.Pages.StoreBoard
use wachen.Time
use wachen.Pages.Pipeline.Polling.{Frozen, pipeline_Reach-Frozen}
use wachen.Api.Types.{PipelineStats, CaseFilters, PendingApproval}

-- An order on texts: the shorter first.
abbrev shorter : Text → Text → Bool
shorter a b = ltb (length a) (length b)

abbrev store_of : Text → ℕ → WaStore
store_of name count = record {
  store = name;
  brand = utf16 "饗X";
  brand_short = utf16 "饗X";
  code = name;
  region = utf16 "North";
  city = utf16 "Taipei";
  manager = [];
  maps_url = [];
  biz_status = [];
  total = 9;
  neg = count;
  high = 1;
  avg_rating = 42;
  neg_rate = 11;
  open_cases = 2;
  sla_rate = 90;
  risk_status = RiskLevel.low;
  trend = pos 1;
  avg_handle_hr = 5;
}

abbrev shops : List WaStore
shops = store_of (utf16 "East") 3 ∷ store_of (utf16 "West") 1 ∷ []

some_cases : 0 < length both
some_cases = omega arith

abbrev tell : Message → Text
tell m = utf16 "failed"

abbrev no_filters : CaseFilters → Text
no_filters f = []

was_asked : In wachen.Api.approvals opened.sent
unfolding opened
was_asked = inl refl

abbrev apology : PendingApproval
apology = record {
  id = utf16 "r1";
  case_id = utf16 "c1";
  content = utf16 "Sorry";
  risk_level = utf16 "high";
  store_name = utf16 "East";
  summary = [];
  created_at = [];
}

abbrev with_list : Approvals
with_list = loaded tell tell (fulfilled (apology ∷ [])) opened

listed_reply : with_list.list ≡ some (apology ∷ [])
unfolding loaded
listed_reply = refl

-- The list comes, the user approves the reply, and a poll follows.
abbrev a_while : Reach tell tell opened (load (decide approve (utf16 "r1") with_list))
a_while =
    next
      (next (next here (loads (fulfilled (apology ∷ [])) opened was_asked))
        (clicks approve apology (apology ∷ []) with_list listed_reply (inl refl)))
      (polls (decide approve (utf16 "r1") with_list))

queue-sent_example :
    map (wire no_filters) (load (decide approve (utf16 "r1") with_list)).sent
    ≡ all_due tell tell a_while
queue-sent_example = queue-sent tell tell no_filters a_while

abbrev no_stats : PipelineStats
no_stats = record {
  funnel = record {
    raw_reviews = 0;
    reviews = 0;
    awaiting_analysis = 0;
    analyzed = 0;
    awaiting_routing = 0;
    cased = 0;
  };
  ai = record {
    models = [];
    total_analyses = 0;
    avg_latency_ms = 0;
    max_latency_ms = 0;
    quarantine_count = 0;
    last_5min = 0;
    last_hour = 0;
    fallback_count = 0;
  };
  risk = [];
  sentiment = [];
  recent = [];
}

-- The answer to the first request comes after the page is left.
abbrev left : Pipeline
left = unmounted wachen.Pages.Pipeline.opened

pipeline_Reach-Frozen_example : Frozen wachen.Pages.Pipeline.opened (arrived no_stats left)
pipeline_Reach-Frozen_example =
    pipeline_Reach-Frozen wachen.Pages.Pipeline.opened (arrived no_stats left) (
      wachen.Pages.Pipeline.next wachen.Pages.Pipeline.here
        (wachen.Pages.Pipeline.answers no_stats left))

abbrev seen_by : App
seen_by = start absent false raws (about_soup ∷ about_nothing ∷ [])

mark_listed-unread_example :
    cnt
      (λ n. not n.read)
      (listed (roles (utf16 "East") hq) (mark_listed (roles (utf16 "East") hq) seen_by))
    ≡ 0
mark_listed-unread_example = mark_listed-unread (roles (utf16 "East") hq) seen_by

-- Two are unread before.
before_marking : cnt (λ n. not n.read) (listed (roles (utf16 "East") hq) seen_by) ≡ 2
unfolding listed roles start
before_marking = refl

late_row : (wachen.Pages.Boards.sla_view (λ n. []) 99999999999999 90 5 [] both).heading ≡ 1
unfolding wachen.Pages.Boards.sla_view wachen.Pages.Sla.overdue wachen.Pages.Sla.soon
    wachen.Time.parse
late_row = refl

risen :
    (wachen.Pages.Boards.alert
      (λ n. [])
      (λ n. utf16 "2")
      (wachen.Pages.StoreBoard.rating_change (pos 2) false)).title
    ≡ utf16 "平均評分較上月變化 +2"
unfolding wachen.Pages.Boards.alert
risen = refl

-- The third shop has lost four tenths of a star.
abbrev ranked : List WaStore
ranked =
    record (store_of (utf16 "South") 2) { trend = negsuc 3 }
    ∷ record (store_of (utf16 "East") 3) { trend = pos 8 }
    ∷ store_of (utf16 "West") 1
    ∷ []

bar_widths :
    map (λ (b : TrendBar). b.width) (store_bars ranked) ≡ (pos 800 ∷ pos 100 ∷ negsuc 399 ∷ [])
unfolding store_bars sort
bar_widths = refl

store_bars_lem_example :
    Pairs Fits (store_rank ranked) (store_bars ranked) × IsSorted wider (store_bars ranked)
store_bars_lem_example = store_bars_lem ranked (omega arith, (omega arith, (omega arith, tt)))
