-- ===== src/Api/Types.antt =====
-- The interfaces of `admin/src/api.ts`: what the backend sends and the filters of a list.
use wachen.Base.{ℕ, Bool, List, Option, Text}
use wachen.Base.Int.{ℤ}
use wachen.Domain.{RiskLevel}
use wachen.ServerCase.{ServerStatus}

pub record CaseSummary : Type 0 where
  pub id : Text
  pub risk_level : RiskLevel
  pub status : ServerStatus
  pub sla_due_at : Text
  pub sla_reminded : Bool
  pub reopened_count : ℕ
  pub created_at : Text
  pub store_name : Text
  pub source_name : Text
  pub source_url : Text
  pub rating : Option ℕ
  pub summary : Text
  pub sentiment : Text
  pub categories : List Text
  pub posted_at : Option Text

pub data NotificationStatus : Type 0 where
  pending sent failed : NotificationStatus

pub record Notification : Type 0 where
  pub channel : Text
  pub recipient : Text
  pub subject : Text
  pub status : NotificationStatus
  pub sent_at : Option Text

pub data ReplyStatus : Type 0 where
  draft pending_approval approved sending sent rejected failed : ReplyStatus

pub record Reply : Type 0 where
  pub id : Text
  pub case_id : Text
  pub content : Text
  pub status : ReplyStatus
  pub external_reply_id : Option Text
  pub reply_url : Option Text
  pub error : Option Text
  pub created_by : Text
  pub created_at : Text

-- The sentiment score is in hundredths.
pub record CaseDetail : Type 0 where
  pub head : CaseSummary
  pub review_content : Text
  pub author_name : Text
  pub keywords : List Text
  pub risk_reasons : List Text
  pub sentiment_score : Option ℤ
  pub model_name : Text
  pub prompt_version : Text
  pub assignments : List Text
  pub notifications : List Notification
  pub can_reply : Bool
  pub replies : List Reply

pub record PendingApproval : Type 0 where
  pub id : Text
  pub case_id : Text
  pub content : Text
  pub risk_level : Text
  pub store_name : Text
  pub summary : Text
  pub created_at : Text

pub record Facet : Type 0 where
  pub value : Text
  pub label : Text
  pub count : ℕ

pub record CaseFilters : Type 0 where
  pub risk : Text
  pub status : Text
  pub store : Text
  pub source : Text
  pub rating : Text
  pub sort : Text

pub record RecentAnalysis : Type 0 where
  pub review_id : Text
  pub store_name : Text
  pub source_name : Text
  pub risk_level : RiskLevel
  pub sentiment : Text
  pub model_name : Text
  pub latency_ms : Option ℕ
  pub summary : Text
  pub created_at : Text
  pub fallback : Bool

pub record Funnel : Type 0 where
  pub raw_reviews : ℕ
  pub reviews : ℕ
  pub awaiting_analysis : ℕ
  pub analyzed : ℕ
  pub awaiting_routing : ℕ
  pub cased : ℕ

pub record AiStats : Type 0 where
  pub models : List Text
  pub total_analyses : ℕ
  pub avg_latency_ms : ℕ
  pub max_latency_ms : ℕ
  pub quarantine_count : ℕ
  pub last_5min : ℕ
  pub last_hour : ℕ
  pub fallback_count : ℕ

pub record PipelineStats : Type 0 where
  pub funnel : Funnel
  pub ai : AiStats
  pub risk : List Facet
  pub sentiment : List Facet
  pub recent : List RecentAnalysis
