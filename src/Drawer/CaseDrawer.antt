-- ===== src/Drawer/CaseDrawer.antt =====
-- `CaseDrawer` of `admin/src/components/Drawer.tsx`: what it shows of a case to a role. The lower case
-- letters of the host are the argument `lower`.
use mathlib.Core.Option
use wachen.Base.{
  or_text, ℕ, Bool, true, false, not, List, [], ◌∷◌, ◌++◌, Option, some, Text, utf16, String,
  text_Eq, nat_eq, ◌==◌, if◌then◌else◌, includes,
}
use wachen.Base.Int.{ℤ}
use wachen.Domain.{
  RiskLevel, high, medium, CaseStatus, unassigned, in_progress, pending_review, pending_customer,
  done, closed, Sentiment, risk_Eq, status_Eq, risk_label,
}
use wachen.Case.{WaCase, CaseNotice}
use wachen.CaseMachine.{Transition, case_trans}
use wachen.Db.{by_id}
use wachen.Drawer.Facts.{fmt_d, fmt_dt, score_width, score_color, is_food, phone_of, email_of}
use wachen.Roles.Table.{Role}
use wachen.Roles.Scope.{truthy, PiiKind, mask}

pub record Event : Type 0 where
  pub t : Text
  pub b : Text
  pub who : Text

abbrev event : Text → Text → Text → Event
event t b who = record { t = t; b = b; who = who }

-- The three entries that every case has.
abbrev pub first_events : WaCase → List Event
first_events c =
    event (fmt_dt c.posted_at) (utf16 "顧客張貼評論") c.platform
    ∷ event (fmt_dt c.created_at) (utf16 "AI 判定完成（" ++ utf16 (risk_label c.risk_level) ++ utf16 "）")
        (c.model_name ++ utf16 " · " ++ c.prompt_version)
    ∷ event (fmt_dt c.created_at) (utf16 "系統自動分派 → " ++ c.assignee) (utf16 "派工規則")
    ∷ []

unfoldable pub timeline : WaCase → List Event
timeline c =
    first_events c
    ++ (if not (c.cstatus == unassigned)
        then event (fmt_dt c.created_at) (utf16 "案件受理") c.assignee ∷ []
        else [])
    ++ (if includes c.cstatus (in_progress ∷ pending_review ∷ pending_customer ∷ done ∷ closed ∷ [])
        then event (fmt_dt c.created_at) (utf16 "開始處理") c.assignee ∷ []
        else [])
    ++ (if includes c.cstatus (done ∷ closed ∷ [])
        then event (fmt_dt c.sla_due_at) (utf16 "案件完成") c.assignee ∷ []
        else [])

-- 建議處理方式
unfoldable pub advice : Bool → RiskLevel → String
advice true r = "立即聯繫顧客了解狀況、保留餐點與現場紀錄，通報食安窗口與公關法務，並於 2 小時內回應。"
advice false medium = "由區經理與店主管於 24 小時內聯繫顧客致歉、了解細節並提出補償或改善說明。"
advice false r = "由店經理於 48 小時內回覆致謝／致歉，記錄問題並納入門市改善。"

-- The review as the first section shows it.
pub record ReviewPart : Type 0 where
  pub has_image : Bool
  pub customer : Text
  pub rating : ℕ
  pub posted : Text
  pub content : Text
  pub reply : Option Text
  pub link : Option Text

pub record AnalysisPart : Type 0 where
  pub model : Text
  pub sentiment : Sentiment
  pub score : Option ℤ
  pub width : ℤ
  pub color : String
  pub categories : List Text
  pub risk : RiskLevel
  pub food_safety : Bool
  pub legal_risk : Bool
  pub keywords : List Text
  pub reasons : List Text
  pub advice : String

pub record CustomerPart : Type 0 where
  pub note_of_mask : Bool
  pub name : Text
  pub phone : Text
  pub email : Text

pub record CasePanel : Type 0 where
  pub risk : RiskLevel
  pub status : CaseStatus
  pub escalated : Bool
  pub code : Text
  pub title : Text
  pub rating : ℕ
  pub place : Text
  pub posted : Text
  pub platform : Text
  pub assignee : Text
  pub actions : List Transition
  pub review : ReviewPart
  pub analysis : AnalysisPart
  pub customer : CustomerPart
  pub timeline : List Event
  pub assignments : List Text
  pub notices : List CaseNotice

unfoldable pub review_part : WaCase → ReviewPart
unfolding fmt_dt
review_part c = record {
  has_image = c.has_image;
  customer = or_text c.author_name (utf16 "匿名");
  rating = c.rating;
  posted = fmt_dt c.posted_at;
  content = or_text c.review_content (utf16 "（純星等，無文字內容）");
  reply = truthy c.store_reply;
  link = truthy (some c.source_url);
}

unfoldable pub analysis_part : WaCase → AnalysisPart
unfolding is_food score_width score_color advice
analysis_part c = record {
  model = c.model_name ++ utf16 " · " ++ c.prompt_version;
  sentiment = c.sentiment;
  score = c.sentiment_score;
  width = score_width c.sentiment_score;
  color = score_color c.sentiment_score;
  categories = c.categories;
  risk = c.risk_level;
  food_safety = is_food c;
  legal_risk = c.risk_level == high;
  keywords = c.keywords;
  reasons = c.risk_reasons;
  advice = advice (is_food c) c.risk_level;
}

unfoldable pub customer_part : (Text → Text) → Role → WaCase → CustomerPart
unfolding phone_of email_of mask
customer_part lower role c = record {
  note_of_mask = not role.pii;
  name = or_text c.author_name (utf16 "匿名");
  phone = mask role (phone_of c) PiiKind.phone;
  email = mask role (email_of lower c) PiiKind.email;
}

unfoldable pub panel_of : (Text → Text) → Role → WaCase → CasePanel
unfolding review_part analysis_part customer_part timeline case_trans fmt_d
panel_of lower role c = record {
  risk = c.risk_level;
  status = c.cstatus;
  escalated = c.escalated;
  code = c.code;
  title = c.store;
  rating = c.rating;
  place = c.brand_short ++ utf16 " · " ++ c.region;
  posted = fmt_d c.posted_at;
  platform = c.platform;
  assignee = c.assignee;
  actions = case_trans c.cstatus;
  review = review_part c;
  analysis = analysis_part c;
  customer = customer_part lower role c;
  timeline = timeline c;
  assignments = c.assignments;
  notices = c.notifications;
}

-- CaseDrawer; nothing for an id that no case has.
unfoldable pub case_panel : (Text → Text) → Role → Text → List WaCase → Option CasePanel
unfolding by_id panel_of
case_panel lower role id cases = Option.map (panel_of lower role) (by_id id cases)
