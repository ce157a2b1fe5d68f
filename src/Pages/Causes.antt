-- ===== src/Pages/Causes.antt =====
-- `admin/src/pages/Causes.tsx`: the charts and the table of the causes, for the cases `cs` that pass the
-- filters. A count of an hour or a weekday that the statistics lost is `none`.
pub mod Matrix
use wachen.Base.{
  ℕ, suc, ◌+◌, ◌*◌, Bool, ◌&&◌, List, [], ◌∷◌, map, Option, none, some, or_else, Text, utf16,
  String, text_Eq, ◌==◌, if◌then◌else◌, leb, ltb, cnt, take, length, includes, get, put, get_elem?,
  max, sum,
}
use wachen.Base.Sort.{sort}
use wachen.Case.{WaCase}
use wachen.Stats.{Stats, scoped_stats, tally_from, more_first}
use wachen.Charts.{BarRow, DonutView, donut, CloudWord, kw_cloud}
use wachen.Drawer.StoreDrawer.{colored_from}

-- brandCnt
unfoldable pub brand_counts : List WaCase → List (Text × ℕ)
unfolding tally_from
brand_counts cs = tally_from [] (map (λ c. c.brand) cs)

unfoldable pub top_brands : List WaCase → List Text
unfolding brand_counts sort
top_brands cs = map (λ b. b.0) (take 4 (sort more_first (brand_counts cs)))

-- A row of the table: a category, and its cases of each of the top brands.
pub record MatrixRow : Type 0 where
  pub c : Text
  pub vals : List ℕ

abbrev pub cell : List WaCase → Text → Text → ℕ
cell cs c b = cnt (λ x. x.brand == b && includes c x.categories) cs

abbrev pub matrix_row : List WaCase → List Text → Text × ℕ → MatrixRow
matrix_row cs brands e = record { c = e.0; vals = map (cell cs e.0) brands }

-- catByBrand
unfoldable pub cat_by_brand : List WaCase → List (Text × ℕ) → List MatrixRow
unfolding top_brands
cat_by_brand cs category = map (matrix_row cs (top_brands cs)) (take 6 category)

-- `Math.max(...hours, 1)`, where all of them are numbers.
abbrev pub hour_top : List (Option ℕ) → ℕ
hour_top [] = 1
hour_top (n ∷ ns) = max (or_else n 0) (hour_top ns)

pub record TimeRow : Type 0 where
  pub n : Text
  pub v : Option ℕ
  pub color : String

-- An hour is marked from seven tenths of the largest number on.
abbrev pub hour_color : ℕ → ℕ → String
hour_color top n = if leb (7 * top) (10 * n) then "var(--critical)" else "var(--s1)"

abbrev pub hour_row : List (Option ℕ) → ℕ × Text → TimeRow
hour_row hours h = record {
  n = h.1;
  v = or_else (get_elem? hours h.0) none;
  color = hour_color (hour_top hours) (or_else (or_else (get_elem? hours h.0) none) 0);
}

-- The hours from 10 to 22.
abbrev pub shown_hours : List (ℕ × Text)
shown_hours =
    (10, utf16 "10:00")
    ∷ (11, utf16 "11:00")
    ∷ (12, utf16 "12:00")
    ∷ (13, utf16 "13:00")
    ∷ (14, utf16 "14:00")
    ∷ (15, utf16 "15:00")
    ∷ (16, utf16 "16:00")
    ∷ (17, utf16 "17:00")
    ∷ (18, utf16 "18:00")
    ∷ (19, utf16 "19:00")
    ∷ (20, utf16 "20:00")
    ∷ (21, utf16 "21:00")
    ∷ (22, utf16 "22:00")
    ∷ []

-- WEEKDAY, with the index of each.
abbrev pub weekdays : List (ℕ × Text)
weekdays =
    (0, utf16 "週一")
    ∷ (1, utf16 "週二")
    ∷ (2, utf16 "週三")
    ∷ (3, utf16 "週四")
    ∷ (4, utf16 "週五")
    ∷ (5, utf16 "週六")
    ∷ (6, utf16 "週日")
    ∷ []

abbrev pub weekday_row : List (Option ℕ) → ℕ × Text → TimeRow
weekday_row days w = record {
  n = w.1;
  v = or_else (get_elem? days w.0) none;
  color = if leb 5 w.0 then "var(--warning)" else "var(--s1)";
}

pub record CausesView : Type 0 where
  pub share : DonutView
  pub hours : List TimeRow
  pub weekdays : List TimeRow
  pub brands : List Text
  pub rows : List MatrixRow
  pub keywords : List CloudWord
  pub categories : ℕ

-- Causes
unfoldable pub causes : (Text → Text → Bool) → List WaCase → CausesView
unfolding scoped_stats cat_by_brand colored_from donut kw_cloud
causes precedes cs =
    let stats = scoped_stats precedes cs in
    record {
      share =
          donut (take 7 (colored_from 0 stats.category)) (sum (λ x. x.1) stats.category)
            (utf16 "標記數");
      hours = map (hour_row stats.hour) shown_hours;
      weekdays = map (weekday_row stats.weekday) weekdays;
      brands = map (λ b. take 4 b) (top_brands cs);
      rows = cat_by_brand cs stats.category;
      keywords = kw_cloud stats.kw_neg;
      categories = length stats.category;
    }
