-- ===== src/Mobile/CaseItem.antt =====
-- The parts that the screens share: `mobile/src/components/CaseListItem.tsx`, `Badge.tsx` and
-- `KpiCard.tsx`. A colour is its name in the theme.
use wachen.Base.{
  ℕ, suc, ◌-◌, Bool, true, false, ◌++◌, Option, Text, utf16, String, nat_eq, take, head?,
}
use wachen.Base.Strip.{without, trim_dashes}
use wachen.Base.Int.{ℤ, pos, negsuc}
use wachen.Domain.{
  RiskLevel, high, medium, low, CaseStatus, in_progress, pending_review, done, closed, canceled,
  risk_label, case_status_label,
}
use wachen.Mobile.Domain.{Case}

pub record Chip : Type 0 where
  pub label : String
  pub color : String

abbrev pub risk_color : RiskLevel → String
risk_color high = "critical"
risk_color medium = "warning"
risk_color low = "good"

-- RiskBadge
unfoldable pub risk_badge : RiskLevel → Chip
unfolding risk_label
risk_badge r = record { label = risk_label r; color = risk_color r }

abbrev pub status_color : CaseStatus → String
status_color done = "good"
status_color closed = "good"
status_color in_progress = "s1"
status_color pending_review = "s1"
status_color canceled = "muted"
status_color _ = "serious"

-- StatusPill
unfoldable pub status_pill : CaseStatus → Chip
unfolding case_status_label
status_pill s = record { label = case_status_label s; color = status_color s }

pub data Tone : Type 0 where
  default alarm warn : Tone

abbrev pub tone_color : Tone → String
tone_color alarm = "critical"
tone_color warn = "serious"
tone_color default = "ink"

-- The line of a change: whether it rises, and by how much.
pub record Delta : Type 0 where
  pub up : Bool
  pub size : ℕ

abbrev pub delta_of : ℤ → Delta
delta_of (pos n) = record { up = true; size = n }
delta_of (negsuc n) = record { up = false; size = suc n }

pub record CaseItem : Type 0 where
  pub target : Text
  pub stars : ℕ
  pub off_stars : ℕ
  pub source : Text
  pub summary : Text
  pub place : Text
  pub risk : Chip
  pub status : Chip
  pub category : Option Text

-- CaseListItem
unfoldable pub case_item : Case → CaseItem
unfolding risk_badge status_pill
case_item c = record {
  target = utf16 "/case/" ++ c.id;
  stars = c.rating;
  off_stars = 5 - c.rating;
  source = c.platform ++ utf16 " · " ++ take 10 c.posted_at;
  summary = c.summary;
  place = c.brand_short ++ utf16 " · " ++ trim_dashes (without c.brand c.store);
  risk = risk_badge c.risk_level;
  status = status_pill c.cstatus;
  category = head? c.categories;
}
