-- ===== src/Pages/InboxView.antt =====
-- What `admin/src/pages/Inbox.tsx` draws: the chips and selects of its filters, and the cards of the
-- cases.
use wachen.Base.{
  ℕ, ◌*◌, Bool, List, [], ◌∷◌, ◌++◌, map, Option, none, some, Text, utf16, String, text_Eq, ◌==◌,
  if◌then◌else◌, is_empty, ltb, min, suc, length,
}
use wachen.Domain.{RiskLevel}
use wachen.Roles.Scope.{truthy}
use wachen.Api.Types.{CaseFilters, CaseSummary, Facet}
use wachen.Pages.Inbox.{is_active, is_google_source}
use wachen.Pages.DetailView.{risk_char, status_label, stars}

-- A value and its label.
abbrev pub Choice : Type 0
Choice = Text × String

-- RISKS
abbrev pub risks : List Choice
risks = ([], "全部風險") ∷ (utf16 "high", "高風險") ∷ (utf16 "medium", "中風險") ∷ (utf16 "low", "低風險") ∷ []

-- STATUSES
abbrev pub statuses : List Choice
statuses =
    ([], "全部狀態")
    ∷ (utf16 "open", "待處理")
    ∷ (utf16 "in_progress", "處理中")
    ∷ (utf16 "resolved", "已解決")
    ∷ (utf16 "closed", "已結案")
    ∷ []

-- SORTS
abbrev pub sorts : List Choice
sorts = (utf16 "sla", "SLA 急迫優先") ∷ (utf16 "newest", "評論最新優先") ∷ (utf16 "oldest", "評論最舊優先") ∷ []

-- RATINGS
abbrev pub ratings : List Choice
ratings =
    ([], "全部星等")
    ∷ (utf16 "5", "★★★★★")
    ∷ (utf16 "4", "★★★★")
    ∷ (utf16 "3", "★★★")
    ∷ (utf16 "2", "★★")
    ∷ (utf16 "1", "★")
    ∷ []

-- A chip, and whether it is the one that is chosen.
pub record Chip : Type 0 where
  pub value : Text
  pub label : String
  pub on : Bool

unfoldable pub chips : Text → List Choice → List Chip
chips chosen cs = map (λ c. record { value = c.0; label = c.1; on = chosen == c.0 }) cs

pub record FilterView : Type 0 where
  pub risks : List Chip
  pub statuses : List Chip
  pub stores : List Facet
  pub sources : List Facet
  pub ratings : Option (List Choice)
  pub sorts : List Choice
  pub clear : Bool
  pub count : Option ℕ

abbrev count_of : Option (List CaseSummary) → Option ℕ
count_of none = none
count_of (some cs) = some (length cs)

unfoldable pub filter_view :
    (Text → Text) → CaseFilters → List Facet → List Facet → Option (List CaseSummary) → FilterView
unfolding chips is_active is_google_source
filter_view lower f stores sources cases = record {
  risks = chips f.risk risks;
  statuses = chips f.status statuses;
  stores = stores;
  sources = sources;
  ratings = if is_google_source lower f.source then some ratings else none;
  sorts = sorts;
  clear = is_active f;
  count = count_of cases;
}

-- A card; a click on it goes to `target`.
pub record Card : Type 0 where
  pub target : Text
  pub risk : RiskLevel
  pub seal : String
  pub delay : ℕ
  pub store : Text
  pub source : Text
  pub stars : Option (ℕ × ℕ)
  pub posted_at : Option Text
  pub summary : Text
  pub tags : List Text
  pub reopened : Option ℕ
  pub link : Text
  pub status : String

unfoldable pub card : ℕ → CaseSummary → Card
unfolding risk_char status_label stars
card i c = record {
  target = utf16 "/cases/" ++ c.id;
  risk = c.risk_level;
  seal = risk_char c.risk_level;
  delay = min i 8 * 40;
  store = if is_empty c.store_name then utf16 "未對映門市" else c.store_name;
  source = c.source_name;
  stars = stars c.rating;
  posted_at = truthy c.posted_at;
  summary = c.summary;
  tags = c.categories;
  reopened = if ltb 0 c.reopened_count then some c.reopened_count else none;
  link = c.source_url;
  status = status_label c.status;
}

unfoldable pub cards_from : ℕ → List CaseSummary → List Card
unfolding card
cards_from i [] = []
cards_from i (c ∷ cs) = card i c ∷ cards_from (suc i) cs

pub data InboxList : Type 0 where
  loading all_quiet : InboxList
  cards : List Card → InboxList

-- The list below the filters.
unfoldable pub inbox_list : Option (List CaseSummary) → InboxList
unfolding cards_from
inbox_list none = loading
inbox_list (some []) = all_quiet
inbox_list (some (c ∷ cs)) = cards (cards_from 0 (c ∷ cs))
