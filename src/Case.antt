-- ===== src/Case.antt =====
-- The records of `admin/src/lib/db.ts`: a case as `db.json` has it, the case with what the client
-- adds, a store, a notification, and the filters. Optional text is `Option`; a score is in hundredths
-- and a rating or a trend of a store in tenths, as the data has them.
use wachen.Base.{ℕ, Bool, List, Option, Text}
use wachen.Base.Int.{ℤ}
use wachen.Domain.{RiskLevel, Sentiment, CaseStatus}

pub record CaseNotice : Type 0 where
  pub channel : Text
  pub recipient : Text
  pub subject : Text
  pub status : Text

-- The fields of `WaCase` above the line `// client 端附加`.
pub record RawCase : Type 0 where
  pub id : Text
  pub risk_level : RiskLevel
  pub status : Text
  pub reopened_count : ℕ
  pub sentiment : Sentiment
  pub sentiment_score : Option ℤ
  pub rating : ℕ
  pub summary : Text
  pub categories : List Text
  pub keywords : List Text
  pub risk_reasons : List Text
  pub review_content : Text
  pub author_name : Text
  pub posted_at : Text
  pub created_at : Text
  pub sla_due_at : Text
  pub assignments : List Text
  pub notifications : List CaseNotice
  pub model_name : Text
  pub prompt_version : Text
  pub source_url : Text
  pub store : Text
  pub brand : Text
  pub brand_short : Text
  pub region : Text
  pub city : Text
  pub store_code : Text
  pub platform : Text
  pub assignee : Text
  pub priority : Text
  pub weekday : ℕ
  pub hour : ℕ
  pub is_peak : Bool
  pub is_weekend : Bool
  pub first_response_min : Option ℕ
  pub resolution_hr : Option ℕ
  pub has_image : Bool
  pub store_reply : Option Text

pub record WaCase : Type 0 where
  pub raw : RawCase
  pub open raw use *
  pub cstatus : CaseStatus
  pub code : Text
  pub read : Bool
  pub escalated : Bool

pub record WaStore : Type 0 where
  pub store : Text
  pub brand : Text
  pub brand_short : Text
  pub code : Text
  pub region : Text
  pub city : Text
  pub manager : Text
  pub maps_url : Text
  pub biz_status : Text
  pub total : ℕ
  pub neg : ℕ
  pub high : ℕ
  pub avg_rating : ℕ
  pub neg_rate : ℕ
  pub open_cases : ℕ
  pub sla_rate : ℕ
  pub risk_status : RiskLevel
  pub trend : ℤ
  pub avg_handle_hr : ℕ

pub data NoticeLevel : Type 0 where
  critical warning serious good : NoticeLevel

pub record Notice : Type 0 where
  pub id : Text
  pub type : Text
  pub channel : Text
  pub title : Text
  pub body : Text
  pub case_id : Option Text
  pub time : Text
  pub read : Bool
  pub level : NoticeLevel

-- `""` stands for no choice: an empty text, or `none`.
pub record ReviewFilters : Type 0 where
  pub q : Text
  pub brand : Text
  pub store : Text
  pub risk : Option RiskLevel
  pub sent : Option Sentiment
  pub status : Option CaseStatus
  pub cat : Text
  pub overdue : Bool
