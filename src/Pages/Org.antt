-- ===== src/Pages/Org.antt =====
-- The page of the organisation, `admin/src/pages/Org.tsx`, and those of the sources and the reports,
-- `admin/src/pages/Sources.tsx` and `admin/src/pages/Reports.tsx`.
use wachen.Base.{
  ℕ, Bool, false, List, [], ◌∷◌, ◌++◌, map, Option, none, some, Text, utf16, String, text_Eq, ◌==◌,
  if◌then◌else◌, take, ltb, length, num_eq,
}
use wachen.Domain.{RiskLevel, high, medium, low}
use wachen.Roles.Table.{Role}
use wachen.Charts.{Bar, bar_chart}
use wachen.Drawer.StoreDrawer.{colored_from}
use wachen.Pages.Settings.{Badge, Guarded, guarded}

-- A role of the organisation as the data have it.
pub record OrgRole : Type 0 where
  pub role : Text
  pub scope : Text
  pub pii : Bool
  pub ai : Bool
  pub assign : Bool
  pub close : Bool
  pub export : Bool
  pub rules : Bool

pub record OrgTree : Type 0 where
  pub group : Text
  pub brands : List Text
  pub regions : List Text
  pub stores : ℕ
  pub people : ℕ

-- The marks of PERM_KEYS, in their order.
unfoldable pub perms : OrgRole → List Bool
perms r = r.pii ∷ r.ai ∷ r.assign ∷ r.close ∷ r.export ∷ r.rules ∷ []

-- `b.length > 6 ? b.slice(0, 6) : b`
unfoldable pub short_brand : Text → Text
short_brand b = if ltb 6 (length b) then take 6 b else b

-- `xs.join("、")`
abbrev pub join_names : List Text → Text
join_names [] = []
join_names (x ∷ xs) = elim xs [ [] ↦ x | _ ∷ _ ↦ x ++ utf16 "、" ++ join_names xs ]

pub record OrgView : Type 0 where
  pub group : Text
  pub brand_count : ℕ
  pub brands : Text
  pub region_count : ℕ
  pub regions : Text
  pub stores : ℕ
  pub people : ℕ
  pub bars : List Bar
  pub role_count : ℕ
  pub matrix : List (Text × Text × List Bool)

unfoldable pub org_page : Role → OrgTree → List OrgRole → Guarded OrgView
unfolding guarded bar_chart perms short_brand colored_from
org_page role tree rs = guarded role (record {
  group = tree.group;
  brand_count = length tree.brands;
  brands = join_names (map short_brand tree.brands);
  region_count = length tree.regions;
  regions = join_names tree.regions;
  stores = tree.stores;
  people = tree.people;
  bars = bar_chart (colored_from 0 (map (λ r. (r.role, 1)) rs)) none (some (λ v. [])) false;
  role_count = length rs;
  matrix = map (λ r. (r.role, r.scope, perms r)) rs;
})

-- `stColor` of a source, and the label of its button.
unfoldable pub source_badge : Text → RiskLevel
source_badge s = if s == utf16 "已串接" then low else if s == utf16 "規劃中" then medium else high

unfoldable pub source_button : Text → String
source_button s = if s == utf16 "已串接" then "重新同步" else "設定串接"

pub record Source : Type 0 where
  pub name : Text
  pub type : Text
  pub status : Text
  pub sync : Text
  pub last : Text
  pub rows : ℕ
  pub err : ℕ

-- A source as it is shown; a source without data has no number.
pub record SourceRow : Type 0 where
  pub name : Text
  pub type : Text
  pub status : Badge
  pub sync : Text
  pub last : Text
  pub rows : Option ℕ
  pub err : ℕ
  pub button : String

unfoldable pub source_row : Source → SourceRow
unfolding source_badge source_button
source_row s = record {
  name = s.name;
  type = s.type;
  status = record { level = source_badge s.status; label = s.status };
  sync = s.sync;
  last = s.last;
  rows = if num_eq s.rows 0 then none else some s.rows;
  err = s.err;
  button = source_button s.status;
}

-- REPORTS
unfoldable pub reports : List Text
reports =
    utf16 "集團週報"
    ∷ utf16 "品牌月報"
    ∷ utf16 "區域績效報表"
    ∷ utf16 "門市評分報表"
    ∷ utf16 "負評原因報表"
    ∷ utf16 "客訴案件報表"
    ∷ utf16 "SLA 報表"
    ∷ utf16 "改善成效報表"
    ∷ utf16 "高風險事件報表"
    ∷ []

-- A card of a report: its title, the day of the data, and the messages of its three buttons.
unfoldable pub report_card : Text → Text → Text × Text × List Text
report_card date_max r =
    (r, date_max, (r ++ utf16 " Excel 匯出") ∷ (r ++ utf16 " PDF 匯出") ∷ (r ++ utf16 " 排程") ∷ [])

unfoldable pub report_cards : Text → List (Text × Text × List Text)
unfolding report_card reports
report_cards date_max = map (report_card date_max) reports
