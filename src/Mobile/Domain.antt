-- ===== src/Mobile/Domain.antt =====
-- The records of `mobile/src/types/domain.ts` that the modelled code reads. `read` is optional there,
-- and `undefined` is `none`.
use wachen.Base.{ℕ, Bool, List, Option, Text}
use wachen.Base.Int.{ℤ}
use wachen.Domain.{RiskLevel, Sentiment, CaseStatus}

pub record Case : Type 0 where
  pub id : Text
  pub risk_level : RiskLevel
  pub status : Text
  pub cstatus : CaseStatus
  pub reopened_count : ℕ
  pub sentiment : Sentiment
  pub sentiment_score : ℤ
  pub rating : ℕ
  pub summary : Text
  pub categories : List Text
  pub keywords : List Text
  pub risk_reasons : List Text
  pub review_content : Text
  pub author_name : Text
  pub posted_at : Text
  pub created_at : Text
  pub sla_due_at : Text
  pub model_name : Text
  pub prompt_version : Text
  pub source_url : Text
  pub store : Text
  pub brand : Text
  pub brand_short : Text
  pub region : Text
  pub city : Text
  pub store_code : Text
  pub platform : Text
  pub assignee : Text
  pub priority : Text
  pub first_response_min : Option ℕ
  pub resolution_hr : Option ℕ
  pub has_image : Bool
  pub store_reply : Option Text
  pub read : Option Bool

pub record Store : Type 0 where
  pub store : Text
  pub brand : Text
  pub brand_short : Text
  pub code : Text
  pub region : Text
  pub city : Text
  pub manager : Text
  pub maps_url : Text
  pub biz_status : Text
  pub total : ℕ
  pub neg : ℕ
  pub high : ℕ
  pub avg_rating : ℕ
  pub neg_rate : ℕ
  pub open_cases : ℕ
  pub sla_rate : ℕ
  pub risk_status : RiskLevel
  pub trend : ℤ
  pub avg_handle_hr : ℕ
