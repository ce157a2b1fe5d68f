-- ===== src/Pages/Tests.antt =====
-- Runs of the pages.
use wachen.Base.{◌≡◌, refl, [], ◌∷◌, Text, ℕ, ◌+◌, length, cnt, not, ◌&&◌, ◌==◌, false}
use wachen.Domain.{high, risk_Eq, status_Eq, is_active}
use wachen.Db.{App, absent, start}
use wachen.Pages.Dashboard.{neg, overdue, Dest, target, neg_count, high_open, overdue_count}
use wachen.Pages.Sla
use wachen.Pages.DrillDown.{Leads, drill_down, drill_down-high}
use wachen.Samples.{raws, open_soup, closed_steak, both}
use wachen.Base.{==_ne, nat_eq, text_Eq, true, List, Bool, ltb, none, some, utf16}
use wachen.Base.Int.{pos}
use wachen.Case.{WaCase, WaStore}
use wachen.Mobile.Domain.{Case}
use wachen.Db.{no_filters}
use wachen.Filter.Mobile.{apply_filters}
use wachen.Pages.Reviews
use wachen.Pages.BothClients.{on_mobile}
use wachen.Pages.StoreBoard.{board}
use wachen.Api.{Message, value, failed, host}
use wachen.Pages.Detail.{DetailState, submit_reply, replied}
use wachen.Pages.Detail.Draft.{Event, types, loads, meanwhile, submit_reply_lem}

abbrev as_is : Text → Text
as_is t = t

abbrev late : ℕ
late = 99999999999999

abbrev app : App
app = start absent false raws []

one_overdue : wachen.Pages.Sla.overdue late both ≡ (open_soup ∷ [])
unfolding wachen.Pages.Sla.overdue wachen.Time.parse
one_overdue = refl

abbrev shorter : Text → Text → Bool
shorter a b = ltb (length a) (length b)

drill_down_example :
    (target neg ≡ utf16 "/reviews")
    × Leads as_is late app both shorter neg (neg_count both)
    × (target overdue ≡ utf16 "/cases")
    × Leads as_is late app both shorter overdue (overdue_count late both)
    × (length (wachen.Pages.Sla.overdue late both) ≡ overdue_count late both)
drill_down_example = drill_down as_is late app both shorter

drill_down-high_example :
    (target Dest.high ≡ utf16 "/reviews")
    × Leads as_is late app both shorter Dest.high
        (high_open both + cnt (λ c. c.risk_level == high && not (is_active c.cstatus)) both)
drill_down-high_example = drill_down-high as_is late app both shorter

abbrev on_phone : WaCase → Case
on_phone c = record {
  id = c.id;
  risk_level = c.risk_level;
  status = c.status;
  cstatus = c.cstatus;
  reopened_count = c.reopened_count;
  sentiment = c.sentiment;
  sentiment_score = pos 0;
  rating = c.rating;
  summary = c.summary;
  categories = c.categories;
  keywords = c.keywords;
  risk_reasons = c.risk_reasons;
  review_content = c.review_content;
  author_name = c.author_name;
  posted_at = c.posted_at;
  created_at = c.created_at;
  sla_due_at = c.sla_due_at;
  model_name = c.model_name;
  prompt_version = c.prompt_version;
  source_url = c.source_url;
  store = c.store;
  brand = c.brand;
  brand_short = c.brand_short;
  region = c.region;
  city = c.city;
  store_code = c.store_code;
  platform = c.platform;
  assignee = c.assignee;
  priority = c.priority;
  first_response_min = none;
  resolution_hr = none;
  has_image = false;
  store_reply = none;
  read = some c.read;
}

-- An order on texts: the shorter first.
abbrev here : List WaCase
here = wachen.Pages.Reviews.listed shorter as_is late no_filters both

abbrev there : List Case
there =
    apply_filters as_is late shorter (on_mobile no_filters)
      (on_phone open_soup ∷ on_phone closed_steak ∷ [])

abbrev store_of : Text → ℕ → WaStore
store_of name count = record {
  store = name;
  brand = utf16 "饗X";
  brand_short = utf16 "饗X";
  code = utf16 "E1";
  region = utf16 "North";
  city = utf16 "Taipei";
  manager = utf16 "Chen";
  maps_url = [];
  biz_status = [];
  total = 9;
  neg = count;
  high = 1;
  avg_rating = 41;
  neg_rate = 30;
  open_cases = 2;
  sla_rate = 88;
  risk_status = high;
  trend = pos 1;
  avg_handle_hr = 5;
}

-- East has more negative reviews than West, so it comes second.
second_of_two :
    (board shorter late
      (store_of (utf16 "East") 5)
      (store_of (utf16 "West") 3 ∷ [])
      (some (utf16 "East"))
      both).rank
    ≡ 2
unfolding board wachen.Time.parse wachen.Pages.StoreBoard.board_of
second_of_two = refl

abbrev tell : Message → Text
tell m = utf16 "error"

abbrev drafting : DetailState
drafting = record { detail = none; err = []; reply_text = utf16 "sorry"; sending = false }

-- The user goes on typing while the reply is sent.
abbrev goes_on : List Event
goes_on = types (utf16 "sorry!") ∷ loads (failed host) ∷ []

submit_reply_lem_example :
    let r = submit_reply as_is drafting in
    let t = meanwhile tell tell as_is goes_on r.0 in
    let u = (replied tell tell (value (utf16 "ok")) t).0 in
    (r.1 ≡ some (utf16 "sorry"))
    × (t.sending ≡ true)
    × (t.reply_text ≡ utf16 "sorry!")
    × (u.reply_text ≡ [])
    × (u.sending ≡ false)
submit_reply_lem_example =
    submit_reply_lem tell tell as_is goes_on (value (utf16 "ok")) drafting (==_ne refl)
