-- ===== src/Domain.antt =====
-- The types of `admin/src/lib/db.ts` and `mobile/src/types/domain.ts` that both clients share, with
-- their labels and ranks.
use wachen.Base.{ℕ, ◌≡◌, ◌↔◌, Bool, true, false, String, arith, Eq, [], ◌∷◌, not, includes}

pub data RiskLevel : Type 0 where
  high medium low : RiskLevel

pub data Sentiment : Type 0 where
  negative neutral positive : Sentiment

pub data CaseStatus : Type 0 where
  unassigned open_ in_progress pending_review pending_customer done closed canceled : CaseStatus

abbrev pub risk_eq : RiskLevel → RiskLevel → Bool
risk_eq high high = true
risk_eq medium medium = true
risk_eq low low = true
risk_eq _ _ = false

pub risk_eq_iff : (a b : RiskLevel) → (risk_eq a b ≡ true) ↔ (a ≡ b)
risk_eq_iff a b = ground arith

instance abbrev pub risk_Eq : Eq RiskLevel
risk_Eq = record { equals = risk_eq; equals_iff = risk_eq_iff }

abbrev pub sentiment_eq : Sentiment → Sentiment → Bool
sentiment_eq negative negative = true
sentiment_eq neutral neutral = true
sentiment_eq positive positive = true
sentiment_eq _ _ = false

pub sentiment_eq_iff : (a b : Sentiment) → (sentiment_eq a b ≡ true) ↔ (a ≡ b)
sentiment_eq_iff a b = ground arith

instance abbrev pub sentiment_Eq : Eq Sentiment
sentiment_Eq = record { equals = sentiment_eq; equals_iff = sentiment_eq_iff }

abbrev pub status_eq : CaseStatus → CaseStatus → Bool
status_eq unassigned unassigned = true
status_eq open_ open_ = true
status_eq in_progress in_progress = true
status_eq pending_review pending_review = true
status_eq pending_customer pending_customer = true
status_eq done done = true
status_eq closed closed = true
status_eq canceled canceled = true
status_eq _ _ = false

pub status_eq_iff : (a b : CaseStatus) → (status_eq a b ≡ true) ↔ (a ≡ b)
status_eq_iff a b = ground arith

instance abbrev pub status_Eq : Eq CaseStatus
status_Eq = record { equals = status_eq; equals_iff = status_eq_iff }

-- RISK_LABEL
unfoldable pub risk_label : RiskLevel → String
risk_label high = "高風險"
risk_label medium = "中風險"
risk_label low = "低風險"

-- RISK_RANK
abbrev pub risk_rank : RiskLevel → ℕ
risk_rank high = 3
risk_rank medium = 2
risk_rank low = 1

-- SENT_LABEL
unfoldable pub sent_label : Sentiment → String
sent_label negative = "負面"
sent_label neutral = "中立"
sent_label positive = "正面"

-- CASE_STATUS
unfoldable pub case_status_label : CaseStatus → String
case_status_label unassigned = "待分派"
case_status_label open_ = "待處理"
case_status_label in_progress = "處理中"
case_status_label pending_review = "待主管確認"
case_status_label pending_customer = "待顧客回覆"
case_status_label done = "已完成"
case_status_label closed = "已結案"
case_status_label canceled = "已取消"

-- isActive, on the status of the case
abbrev pub is_active : CaseStatus → Bool
is_active s = not (includes s (done ∷ closed ∷ canceled ∷ []))
