-- ===== src/Filter/Mobile.antt =====
-- `applyFilters` of `mobile/src/state/filters.ts`, its filters and their store. `lower` and `now` are
-- as for the admin client; `precedes a b` says that `a.localeCompare(b)` is negative.
pub mod Order
use wachen.Base.{
  ℕ, Bool, true, false, not, ◌&&◌, ◌||◌, List, [], ◌++◌, Option, none, some, Text, text_Eq, ◌==◌,
  filter, includes, is_empty, has_substring, join, ltb, num_eq,
}
use wachen.Base.Sort.{sort}
use wachen.Time.{parse}
use wachen.Domain.{
  RiskLevel, Sentiment, CaseStatus, risk_Eq, sentiment_Eq, status_Eq, risk_rank, is_active,
}
use wachen.Mobile.Domain.{Case}
use wachen.Filter.Admin.{is_past, misses, misses_choice}

pub record ReviewFilters : Type 0 where
  pub q : Text
  pub brand : Text
  pub store : Text
  pub risk : Option RiskLevel
  pub sentiment : Option Sentiment
  pub status : Option CaseStatus
  pub category : Text
  pub overdue_only : Bool

abbrev pub initial : ReviewFilters
initial = record {
  q = [];
  brand = [];
  store = [];
  risk = none;
  sentiment = none;
  status = none;
  category = [];
  overdue_only = false;
}

-- The comparison of the sort: by risk, the high ones first, and then the latest first.
abbrev pub before : (Text → Text → Bool) → Case → Case → Bool
before precedes a b =
    ltb (risk_rank b.risk_level) (risk_rank a.risk_level)
    || (num_eq (risk_rank b.risk_level) (risk_rank a.risk_level)
        && precedes b.posted_at a.posted_at)

module _ (lower : Text → Text) (now : ℕ) where
  abbrev haystack : Case → Text
  haystack c =
      lower (c.store ++ (c.summary ++ (c.review_content ++ (join c.keywords ++ c.author_name))))

  unfoldable pub passes : ReviewFilters → Case → Bool
  passes f c =
      not (not (is_empty f.q) && not (has_substring (haystack c) (lower f.q)))
      && not (misses f.brand c.brand)
      && not (misses f.store c.store)
      && not (misses_choice f.risk c.risk_level)
      && not (misses_choice f.sentiment c.sentiment)
      && not (misses_choice f.status c.cstatus)
      && not (not (is_empty f.category) && not (includes f.category c.categories))
      && not (f.overdue_only && not (is_active c.cstatus && is_past (parse c.sla_due_at) now))

  unfoldable pub apply_filters : (Text → Text → Bool) → ReviewFilters → List Case → List Case
  unfolding passes sort
  apply_filters precedes f cs = sort (before precedes) (filter (passes f) cs)
