-- ===== src/Pages/Rows.antt =====
-- The rows of the tables of cases, in `admin/src/pages/Reviews.tsx` and `admin/src/pages/Cases.tsx`,
-- and the options of `admin/src/components/FilterBar.tsx`. The order of two options is that of their
-- UTF-16 units.
use wachen.Base.{
  add_new, ℕ, Bool, true, false, ◌&&◌, ◌||◌, List, [], ◌∷◌, map, Option, none, some, Text, utf16,
  String, text_Eq, if◌then◌else◌, take, head?, or_else, ltb, num_eq,
}
use wachen.Base.Strip.{without, trim_dashes}
use wachen.Base.Sort.{sort}
use wachen.Domain.{
  RiskLevel, risk_label, sent_label, case_status_label, high, medium, low, negative, neutral,
  positive, unassigned, open_, in_progress, pending_review, pending_customer, done, closed,
  canceled,
}
use wachen.Case.{WaCase}
use wachen.Stats.{category_counts}
use wachen.Drawer.Facts.{fmt_d}

-- The name of the store without that of its brand.
abbrev pub short_store : WaCase → Text
short_store c = trim_dashes (without c.brand c.store)

pub record ReviewRow : Type 0 where
  pub opens : Text
  pub posted : Text
  pub brand : Text
  pub store : Text
  pub platform : Text
  pub rating : ℕ
  pub summary : Text
  pub sentiment : String
  pub tags : List Text
  pub risk : String
  pub status : String
  pub assignee : Text

unfoldable pub review_row : WaCase → ReviewRow
unfolding fmt_d sent_label risk_label case_status_label
review_row c = record {
  opens = c.id;
  posted = fmt_d c.posted_at;
  brand = c.brand_short;
  store = short_store c;
  platform = c.platform;
  rating = c.rating;
  summary = take 54 c.summary;
  sentiment = sent_label c.sentiment;
  tags = take 2 c.categories;
  risk = risk_label c.risk_level;
  status = case_status_label c.cstatus;
  assignee = c.assignee;
}

pub record CaseRow : Type 0 where
  pub opens : Text
  pub code : Text
  pub created : Text
  pub brand : Text
  pub store : Text
  pub category : Text
  pub risk : RiskLevel
  pub summary : Text
  pub assignee : Text
  pub status : String
  pub escalated : Bool

unfoldable pub case_row : WaCase → CaseRow
unfolding fmt_d case_status_label
case_row c = record {
  opens = c.id;
  code = c.code;
  created = fmt_d c.created_at;
  brand = c.brand_short;
  store = short_store c;
  category = or_else (head? c.categories) (utf16 "—");
  risk = c.risk_level;
  summary = take 44 c.summary;
  assignee = c.assignee;
  status = case_status_label c.cstatus;
  escalated = c.escalated;
}

-- The order of `sort` on texts.
abbrev pub text_before : Text → Text → Bool
text_before s [] = false
text_before [] (b ∷ t) = true
text_before (a ∷ s) (b ∷ t) = ltb a b || (num_eq a b && text_before s t)

-- `[...new Set(xs)].sort()`
unfoldable pub distinct_sorted : List Text → List Text
unfolding sort
distinct_sorted xs = sort text_before (add_new [] xs)

pub record FilterOptions : Type 0 where
  pub search : Bool
  pub brands : List Text
  pub stores : List Text
  pub risks : List String
  pub sentiments : List String
  pub statuses : Option (List String)
  pub categories : List Text
  pub overdue : Bool

-- FilterBar, for the cases in scope.
unfoldable pub filter_bar : Bool → List WaCase → FilterOptions
unfolding distinct_sorted category_counts risk_label sent_label case_status_label
filter_bar full cs = record {
  search = full;
  brands = distinct_sorted (map (λ c. c.brand) cs);
  stores = distinct_sorted (map (λ c. c.store) cs);
  risks = map risk_label (high ∷ medium ∷ low ∷ []);
  sentiments = map sent_label (negative ∷ neutral ∷ positive ∷ []);
  statuses =
      if full
      then some (
          map case_status_label (
            unassigned ∷ open_ ∷ in_progress ∷ pending_review ∷ pending_customer ∷ done ∷ closed
            ∷ canceled ∷ []))
      else none;
  categories = map (λ e. e.0) (category_counts cs);
  overdue = full;
}
