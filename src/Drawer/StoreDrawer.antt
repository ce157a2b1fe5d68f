-- ===== src/Drawer/StoreDrawer.antt =====
-- `StoreDrawer` of `admin/src/components/Drawer.tsx`: what it shows of a store. The numbers of the
-- categories are kept in the order in which they come up; no category is written like a number, which
-- an object of JavaScript would put first.
use wachen.Base.{
  ℕ, suc, ◌-◌, ◌%◌, Bool, true, false, ◌&&◌, List, [], ◌∷◌, map, Option, none, some, Text, utf16,
  String, text_Eq, nat_eq, ◌==◌, leb, filter, find, take, length, cnt, get_elem?,
}
use wachen.Base.Int.{ℤ, pos, negsuc}
use wachen.Domain.{RiskLevel, high, CaseStatus, negative, sentiment_Eq, is_active}
use wachen.Case.{WaCase, WaStore}
use wachen.Stats.{category_counts}
use wachen.Charts.{BarRow, Bar, bar_chart}
use wachen.Pages.StoreBoard.{rank_of}

-- CAT_COLORS
unfoldable pub cat_colors : List String
cat_colors =
    "var(--s1)" ∷ "var(--s2)" ∷ "var(--s3)" ∷ "var(--s4)" ∷ "var(--s5)" ∷ "var(--s6)" ∷ "var(--s7)"
    ∷ "var(--s8)" ∷ []

-- The rows of counted names, with the colours in turn from the `i`-th on.
unfoldable pub colored_from : ℕ → List (Text × ℕ) → List BarRow
unfolding cat_colors
colored_from i [] = []
colored_from i (x ∷ xs) =
    record { n = x.0; v = x.1; color = get_elem? cat_colors (i % 8) } ∷ colored_from (suc i) xs

unfoldable pub category_rows : List WaCase → List BarRow
unfolding colored_from category_counts
category_rows cs = colored_from 0 (category_counts cs)

-- The hours from 11 to 21, written as the rows are.
abbrev pub open_hours : List (ℕ × Text)
open_hours =
    (11, utf16 "11:00")
    ∷ (12, utf16 "12:00")
    ∷ (13, utf16 "13:00")
    ∷ (14, utf16 "14:00")
    ∷ (15, utf16 "15:00")
    ∷ (16, utf16 "16:00")
    ∷ (17, utf16 "17:00")
    ∷ (18, utf16 "18:00")
    ∷ (19, utf16 "19:00")
    ∷ (20, utf16 "20:00")
    ∷ (21, utf16 "21:00")
    ∷ []

abbrev pub hour_row : List WaCase → ℕ × Text → BarRow
hour_row cs h = record {
  n = h.1;
  v = cnt (λ c. c.hour == h.0 && c.sentiment == negative) cs;
  color = some "var(--s1)";
}

unfoldable pub hour_rows : List WaCase → List BarRow
hour_rows cs = map (hour_row cs) open_hours

-- The paragraph 「AI 門市摘要」, by what varies in it: the fall of the rating in tenths, if it fell, the
-- first two categories, whether it names weekends, and which of the two recommendations it ends with.
pub record Summary : Type 0 where
  pub total : ℕ
  pub avg_rating : ℕ
  pub fall : Option ℕ
  pub first : Text
  pub second : Option Text
  pub on_weekends : Bool
  pub intervene : Bool

abbrev pub fall_of : ℤ → Option ℕ
fall_of (pos n) = none
fall_of (negsuc n) = some (suc n)

abbrev first_name : List BarRow → Text
first_name [] = utf16 "—"
first_name (r ∷ rs) = r.n

abbrev second_name : List BarRow → Option Text
second_name (r ∷ q ∷ rs) = some q.n
second_name _ = none

abbrev pub is_high : RiskLevel → Bool
is_high high = true
is_high _ = false

unfoldable pub summary_of : WaStore → List BarRow → ℕ → ℕ → Summary
summary_of s rows wknd wkday = record {
  total = s.total;
  avg_rating = s.avg_rating;
  fall = fall_of s.trend;
  first = first_name rows;
  second = second_name rows;
  on_weekends = leb wkday wknd;
  intervene = is_high s.risk_status;
}

-- A line of 「未結案件」; a click on it opens the case `id`.
pub record OpenLine : Type 0 where
  pub id : Text
  pub risk : RiskLevel
  pub text : Text
  pub status : CaseStatus

abbrev pub open_line : WaCase → OpenLine
open_line c = record {
  id = c.id;
  risk = c.risk_level;
  text = take 40 c.summary;
  status = c.cstatus;
}

pub record StorePanel : Type 0 where
  pub store : WaStore
  pub rank : ℕ
  pub in_region : ℕ
  pub summary : Summary
  pub categories : List Bar
  pub hours : List Bar
  pub weekdays : ℕ
  pub weekends : ℕ
  pub days : List Bar
  pub open_count : ℕ
  pub open_lines : List OpenLine

abbrev pub day_row : Text → ℕ → String → BarRow
day_row n v color = record { n = n; v = v; color = some color }

-- The panel of the store `s` among `stores`.
unfoldable pub panel_of : List WaStore → Text → WaStore → List WaCase → StorePanel
unfolding rank_of category_rows hour_rows summary_of bar_chart
panel_of stores name s cases =
    let cs = filter (λ c. c.store == name) cases in
    let rows = category_rows cs in
    let wknd = cnt (λ c. c.is_weekend) cs in
    let wkday = length cs - wknd in
    let region_stores = filter (λ x. x.region == s.region) stores in
    let open_cases = filter (λ c. is_active c.cstatus) cs in
    record {
      store = s;
      rank = rank_of name region_stores;
      in_region = length region_stores;
      summary = summary_of s rows wknd wkday;
      categories = bar_chart rows none none true;
      hours = bar_chart (hour_rows cs) none none false;
      weekdays = wkday;
      weekends = wknd;
      days =
          bar_chart
            (day_row (utf16 "平日") wkday "var(--s1)"
              ∷ day_row (utf16 "假日") wknd "var(--warning)"
              ∷ [])
            none none true;
      open_count = length open_cases;
      open_lines = map open_line (take 8 open_cases);
    }

abbrev pub panel_for : List WaStore → Text → Option WaStore → List WaCase → Option StorePanel
panel_for stores name none cases = none
panel_for stores name (some s) cases = some (panel_of stores name s cases)

-- StoreDrawer; nothing for a name that no store has.
unfoldable pub store_panel : List WaStore → Text → List WaCase → Option StorePanel
unfolding panel_of
store_panel stores name cases = panel_for stores name (find (λ x. x.store == name) stores) cases
