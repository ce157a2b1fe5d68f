-- ===== src/Pages/DetailView.antt =====
-- What `admin/src/pages/CaseDetail.tsx` shows of a case of the backend, with the parts of
-- `admin/src/components.tsx`. A score is in hundredths, and a place on its bar in half percents.
pub mod Score
use wachen.Base.{
  or_text, ℕ, ◌-◌, Bool, true, false, not, ◌||◌, List, [], ◌∷◌, ◌++◌, map, Option, none, some,
  or_else, Text, utf16, String, if◌then◌else◌, is_empty, ltb, min, suc, take,
}
use wachen.Base.Int.{ℤ, pos, negsuc}
use wachen.Base.Strip.{without}
use wachen.Domain.{RiskLevel, high, medium, low}
use wachen.ServerCase.{ServerStatus, open_, in_progress, resolved, closed, actions}
use wachen.Api.Types.{
  CaseDetail, Reply, ReplyStatus, draft, pending_approval, approved, sending, sent, rejected,
  failed, Notification, NotificationStatus, pending,
}
use wachen.Roles.Scope.{truthy}

-- RISK_CHAR, for the risks that there are
unfoldable pub risk_char : RiskLevel → String
risk_char high = "高"
risk_char medium = "中"
risk_char low = "低"

-- STATUS_LABEL and statusLabel
unfoldable pub status_label : ServerStatus → String
status_label open_ = "待處理"
status_label in_progress = "處理中"
status_label resolved = "已解決"
status_label closed = "已結案"

-- Stars: the full ones and the empty ones; nothing without a rating.
unfoldable pub stars : Option ℕ → Option (ℕ × ℕ)
stars none = none
stars (some n) = some (n, 5 - n)

-- REPLY_STATUS
unfoldable pub reply_status : ReplyStatus → String
reply_status draft = "草稿"
reply_status pending_approval = "待審核"
reply_status approved = "已核准"
reply_status sending = "送出中"
reply_status ReplyStatus.sent = "已送出"
reply_status rejected = "已退回"
reply_status ReplyStatus.failed = "送出失敗"

pub record ScoreBar : Type 0 where
  pub left : ℕ
  pub width : ℕ
  pub negative : Bool

-- `Math.min(50, Math.abs(score) * 50)`
abbrev width_of : ℕ → ℕ
width_of size = min 100 size

unfoldable pub score_bar : Option ℤ → ScoreBar
score_bar none = record { left = 100; width = 0; negative = false }
score_bar (some (pos n)) = record { left = 100; width = width_of n; negative = false }
score_bar (some (negsuc n)) = record {
  left = 100 - width_of (suc n);
  width = width_of (suc n);
  negative = true;
}

pub record ReplyItem : Type 0 where
  pub status : String
  pub by : Text
  pub link : Option Text
  pub content : Text
  pub error : Option Text

unfoldable pub reply_item : Reply → ReplyItem
unfolding reply_status
reply_item r = record {
  status = reply_status r.status;
  by = without (utf16 "svc:") r.created_by;
  link = truthy r.reply_url;
  content = r.content;
  error = truthy r.error;
}

-- The form: whether it hints at the approval, the label of its button, and whether that is disabled.
pub record ReplyForm : Type 0 where
  pub hint : Bool
  pub label : String
  pub disabled : Bool

abbrev is_high : RiskLevel → Bool
is_high high = true
is_high _ = false

unfoldable pub reply_form : (Text → Text) → RiskLevel → Bool → Text → ReplyForm
reply_form trim risk busy text = record {
  hint = is_high risk;
  label = if busy then "送出中…" else if is_high risk then "送審" else "送出回覆";
  disabled = busy || is_empty (trim text);
}

abbrev status_name : NotificationStatus → String
status_name pending = "PENDING"
status_name NotificationStatus.sent = "SENT"
status_name NotificationStatus.failed = "FAILED"

pub record NoticeLine : Type 0 where
  pub status : String
  pub who : Text
  pub subject : Text

unfoldable pub notice_line : Notification → NoticeLine
notice_line n = record {
  status = status_name n.status;
  who = without (utf16 "role:") n.recipient;
  subject = n.subject;
}

pub record DetailView : Type 0 where
  pub seal : String
  pub store : Text
  pub source : Text
  pub status : String
  pub reopened : Option ℕ
  pub actions : List (ServerStatus × String)
  pub content : Text
  pub author : Text
  pub stars : Option (ℕ × ℕ)
  pub posted_at : Option Text
  pub link : Text
  pub replies : List ReplyItem
  pub form : Option ReplyForm
  pub notices : List NoticeLine
  pub sentiment : Text
  pub score : ℤ
  pub bar : ScoreBar
  pub tags : List Text
  pub reasons : List Text
  pub trace : Text
  pub assignments : List Text

-- CaseDetailPage, once the case is there.
unfoldable pub detail_view : (Text → Text) → Bool → Text → CaseDetail → DetailView
unfolding risk_char status_label stars score_bar reply_item reply_form notice_line actions
detail_view trim busy text d = record {
  seal = risk_char d.head.risk_level;
  store = or_text d.head.store_name (utf16 "未對映門市");
  source = d.head.source_name;
  status = status_label d.head.status;
  reopened = if ltb 0 d.head.reopened_count then some d.head.reopened_count else none;
  actions = actions d.head.status;
  content = or_text d.review_content (utf16 "（純星等，無文字）");
  author = or_text d.author_name (utf16 "匿名");
  stars = stars d.head.rating;
  posted_at = truthy d.head.posted_at;
  link = d.head.source_url;
  replies = map reply_item d.replies;
  form = if d.can_reply then some (reply_form trim d.head.risk_level busy text) else none;
  notices = map notice_line d.notifications;
  sentiment = d.head.sentiment;
  score = or_else d.sentiment_score (pos 0);
  bar = score_bar d.sentiment_score;
  tags = d.head.categories ++ d.keywords;
  reasons = d.risk_reasons;
  trace =
      utf16 "model="
      ++ d.model_name
      ++ utf16 " · prompt="
      ++ d.prompt_version
      ++ utf16 " · case="
      ++ take 8 d.head.id;
  assignments = d.assignments;
}
