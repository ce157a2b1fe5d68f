-- ===== src/Mobile/Roles.antt =====
-- `mobile/src/auth/roles.ts`: roles, the views of each, the scope of data and the mask.
use wachen.Base.{
  Bool, true, false, List, [], ◌∷◌, ◌++◌, String, Option, none, some, Text, utf16, text_Eq, ◌==◌,
  if◌then◌else◌, filter, any, take, take_right, before, field_after, or_else, num_eq, ℕ,
}
use wachen.Domain.{high, risk_Eq}
use wachen.Roles.Scope.{truthy, PiiKind, phone, email}
use wachen.Mobile.Domain.{Case, Store}

pub data RoleId : Type 0 where
  hq region store cs pr : RoleId

pub data ViewId : Type 0 where
  dashboard reviews cases sla stores causes voice ai tasks improve notifications reports rules org
        sources :
      ViewId

pub data Home : Type 0 where
  dashboard store cases reviews : Home

pub record Role : Type 0 where
  pub id : RoleId
  pub name : String
  pub title : String
  pub avatar : String
  pub scope_label : Option String
  pub home : Home
  pub region : Option Text
  pub store : Option Text
  pub menu : Option (List ViewId)
  pub pii : Bool
  pub rules : Bool
  pub risk_only : Bool

-- ROLES; the role of a store has no store of its own here.
unfoldable pub roles : RoleId → Role
roles hq = record {
  id = hq;
  name = "系統管理員";
  title = "總部管理者";
  avatar = "系";
  scope_label = some "全集團 · 全品牌 · 全門市";
  home = Home.dashboard;
  region = none;
  store = none;
  menu = none;
  pii = true;
  rules = true;
  risk_only = false;
}
roles RoleId.region = record {
  id = RoleId.region;
  name = "林區經理";
  title = "區經理（北一區）";
  avatar = "林";
  scope_label = some "北一區";
  home = Home.dashboard;
  region = some (utf16 "北一區");
  store = none;
  menu = some (
      ViewId.dashboard ∷ ViewId.reviews ∷ ViewId.cases ∷ sla ∷ stores ∷ causes ∷ voice ∷ ai ∷ tasks
      ∷ improve ∷ notifications ∷ reports ∷ []);
  pii = true;
  rules = false;
  risk_only = false;
}
roles RoleId.store = record {
  id = RoleId.store;
  name = "陳店經理";
  title = "店經理";
  avatar = "陳";
  scope_label = none;
  home = Home.store;
  region = none;
  store = none;
  menu = some (ViewId.dashboard ∷ ViewId.reviews ∷ ViewId.cases ∷ sla ∷ tasks ∷ notifications ∷ []);
  pii = false;
  rules = false;
  risk_only = false;
}
roles cs = record {
  id = cs;
  name = "何采潔";
  title = "客服人員";
  avatar = "何";
  scope_label = some "指派案件";
  home = Home.cases;
  region = none;
  store = none;
  menu = some (ViewId.dashboard ∷ ViewId.reviews ∷ ViewId.cases ∷ sla ∷ notifications ∷ tasks ∷ []);
  pii = true;
  rules = false;
  risk_only = false;
}
roles pr = record {
  id = pr;
  name = "鍾岳霖";
  title = "公關／法務";
  avatar = "鍾";
  scope_label = some "高風險案件";
  home = Home.reviews;
  region = none;
  store = none;
  menu = some (ViewId.dashboard ∷ ViewId.reviews ∷ ViewId.cases ∷ sla ∷ notifications ∷ []);
  pii = true;
  rules = false;
  risk_only = true;
}

abbrev pub view_no : ViewId → ℕ
view_no ViewId.dashboard = 0
view_no ViewId.reviews = 1
view_no ViewId.cases = 2
view_no sla = 3
view_no stores = 4
view_no causes = 5
view_no voice = 6
view_no ai = 7
view_no tasks = 8
view_no improve = 9
view_no notifications = 10
view_no reports = 11
view_no rules = 12
view_no org = 13
view_no sources = 14

abbrev pub view_eq : ViewId → ViewId → Bool
view_eq a b = num_eq (view_no a) (view_no b)

abbrev pub in_menu : ViewId → Option (List ViewId) → Bool
in_menu view none = true
in_menu view (some m) = any (λ v. view_eq v view) m

-- allowedView
unfoldable pub allowed_view : Role → ViewId → Bool
allowed_view role view = in_menu view role.menu

abbrev pub filter_region : Option Text → List Case → List Case
filter_region (some g) xs = filter (λ c. c.region == g) xs
filter_region none xs = xs

abbrev pub filter_place : Option Text → Option Text → List Case → List Case
filter_place (some s) area xs = filter (λ c. c.store == s) xs
filter_place none area xs = filter_region area xs

abbrev pub filter_risk : Bool → List Case → List Case
filter_risk true xs = filter (λ c. c.risk_level == high) xs
filter_risk false xs = xs

unfoldable pub scope_cases : Role → List Case → List Case
scope_cases role xs =
    filter_risk role.risk_only (filter_place (truthy role.store) (truthy role.region) xs)

abbrev pub stores_of_place : Option Text → Option Text → List Store → List Store
stores_of_place (some name) area ss = filter (λ s. s.store == name) ss
stores_of_place none (some g) ss = filter (λ s. s.region == g) ss
stores_of_place none none ss = ss

unfoldable pub scope_stores : Role → List Store → List Store
scope_stores role ss = stores_of_place (truthy role.store) (truthy role.region) ss

-- maskPii
unfoldable pub mask_pii : Role → Text → PiiKind → Text
mask_pii role value phone = if role.pii then value else utf16 "09XX-XXX-" ++ take_right 3 value
mask_pii role value email =
    if role.pii
    then value
    else take 2 (before b'@' value) ++ utf16 "***@" ++ or_else (field_after b'@' value) []
mask_pii role value PiiKind.name = if role.pii then value else utf16 "***"
