-- ===== src/Pages/Dashboard.antt =====
-- `admin/src/pages/Dashboard.tsx`: the counts of cases on its tiles and in its charts of risk and
-- sentiment, and `go`, which a click on a tile calls. `now` is `Date.now()`, as in `Filter.Admin`.
use wachen.Base.{ℕ, List, [], ◌∷◌, map, some, true, Text, utf16, ◌&&◌, ◌==◌, cnt}
use wachen.Time.{parse}
use wachen.Domain.{
  RiskLevel, medium, low, Sentiment, negative, neutral, positive, risk_Eq, sentiment_Eq, is_active,
}
use wachen.Case.{WaCase, ReviewFilters}
use wachen.Db.{App, clear_filters, bump}
use wachen.Filter.Admin.{is_past}

unfoldable pub neg_count : List WaCase → ℕ
neg_count cs = cnt (λ c. c.sentiment == negative) cs

unfoldable pub high_open : List WaCase → ℕ
high_open cs = cnt (λ c. c.risk_level == RiskLevel.high && is_active c.cstatus) cs

unfoldable pub overdue_count : ℕ → List WaCase → ℕ
overdue_count now cs = cnt (λ c. is_active c.cstatus && is_past (parse c.sla_due_at) now) cs

-- The bars of the two charts.
unfoldable pub risk_bars : List WaCase → List (RiskLevel × ℕ)
risk_bars cs = map (λ k. (k, cnt (λ c. c.risk_level == k) cs)) (RiskLevel.high ∷ medium ∷ low ∷ [])

unfoldable pub sentiment_bars : List WaCase → List (Sentiment × ℕ)
sentiment_bars cs =
    map (λ k. (k, cnt (λ c. c.sentiment == k) cs)) (negative ∷ neutral ∷ positive ∷ [])

pub data Dest : Type 0 where
  neg cases sla high overdue : Dest

-- The filters that `go` sets after it has cleared them.
abbrev pub with_dest : Dest → ReviewFilters → ReviewFilters
with_dest neg rf = record rf { sent = some negative }
with_dest high rf = record rf { risk = some RiskLevel.high }
with_dest overdue rf = record rf { overdue = true }
with_dest _ rf = rf

-- Where `go` navigates to.
unfoldable pub target : Dest → Text
target sla = utf16 "/sla"
target cases = utf16 "/cases"
target overdue = utf16 "/cases"
target _ = utf16 "/reviews"

unfoldable pub go : Dest → App → App
unfolding clear_filters bump
go dest s = let t = clear_filters s in bump (record t { rf = with_dest dest t.rf })
