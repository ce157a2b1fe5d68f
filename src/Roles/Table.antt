-- ===== src/Roles/Table.antt =====
-- `ROLES` and `MENU_ROLE` of `admin/src/lib/roles.ts`. The role of a store has the first store of the
-- data, so the table takes its name.
use wachen.Base.{
  Bool, true, false, String, List, [], ◌∷◌, Option, none, some, Text, utf16, text_Eq, includes,
}

pub data RoleId : Type 0 where
  hq region store cs pr tk : RoleId

pub data MenuKind : Type 0 where
  all region store cs pr : MenuKind

pub record Role : Type 0 where
  pub name : String
  pub title : String
  pub av : String
  pub scope : Option String
  pub home : Text
  pub region : Option Text
  pub store : Option Text
  pub brand : Option Text
  pub menu : MenuKind
  pub pii : Bool
  pub rules : Bool
  pub risk_only : Bool

-- EXTERNAL_BRANDS
abbrev pub external_brands : List Text
external_brands = utf16 "燦X" ∷ []

-- ROLES
unfoldable pub roles : Text → RoleId → Role
roles first hq = record {
  name = "系統管理員";
  title = "總部管理者";
  av = "系";
  scope = some "全集團 · 全品牌 · 全門市";
  home = utf16 "/dashboard";
  region = none;
  store = none;
  brand = none;
  menu = all;
  pii = true;
  rules = true;
  risk_only = false;
}
roles first RoleId.region = record {
  name = "林區經理";
  title = "區經理（北一區）";
  av = "林";
  scope = some "北一區";
  home = utf16 "/dashboard";
  region = some (utf16 "北一區");
  store = none;
  brand = none;
  menu = MenuKind.region;
  pii = true;
  rules = false;
  risk_only = false;
}
roles first RoleId.store = record {
  name = "陳店經理";
  title = "店經理";
  av = "陳";
  scope = none;
  home = utf16 "/store";
  region = none;
  store = some first;
  brand = none;
  menu = MenuKind.store;
  pii = false;
  rules = false;
  risk_only = false;
}
roles first RoleId.cs = record {
  name = "何采潔";
  title = "客服人員";
  av = "何";
  scope = some "指派案件";
  home = utf16 "/cases";
  region = none;
  store = none;
  brand = none;
  menu = MenuKind.cs;
  pii = true;
  rules = false;
  risk_only = false;
}
roles first RoleId.pr = record {
  name = "鍾岳霖";
  title = "公關／法務";
  av = "鍾";
  scope = some "高風險案件";
  home = utf16 "/reviews";
  region = none;
  store = none;
  brand = none;
  menu = MenuKind.pr;
  pii = true;
  rules = false;
  risk_only = true;
}
roles first tk = record {
  name = "蘇志豪";
  title = "燦X管理者";
  av = "燦";
  scope = some "燦X3C · 大台北門市";
  home = utf16 "/dashboard";
  region = none;
  store = none;
  brand = some (utf16 "燦X");
  menu = MenuKind.region;
  pii = true;
  rules = false;
  risk_only = false;
}

-- MENU_ROLE; `none` is no restriction.
unfoldable pub menu_role : MenuKind → Option (List Text)
menu_role MenuKind.store = some (
    utf16 "dashboard"
    ∷ utf16 "reviews"
    ∷ utf16 "cases"
    ∷ utf16 "sla"
    ∷ utf16 "tasks"
    ∷ utf16 "notifications"
    ∷ [])
menu_role MenuKind.cs = some (
    utf16 "dashboard"
    ∷ utf16 "reviews"
    ∷ utf16 "cases"
    ∷ utf16 "sla"
    ∷ utf16 "notifications"
    ∷ utf16 "tasks"
    ∷ [])
menu_role MenuKind.pr =
    some (
      utf16 "dashboard"
      ∷ utf16 "reviews"
      ∷ utf16 "cases"
      ∷ utf16 "sla"
      ∷ utf16 "notifications"
      ∷ [])
menu_role MenuKind.region = some (
    utf16 "dashboard"
    ∷ utf16 "reviews"
    ∷ utf16 "cases"
    ∷ utf16 "sla"
    ∷ utf16 "stores"
    ∷ utf16 "causes"
    ∷ utf16 "voice"
    ∷ utf16 "ai"
    ∷ utf16 "tasks"
    ∷ utf16 "improve"
    ∷ utf16 "notifications"
    ∷ utf16 "reports"
    ∷ [])
menu_role all = none

-- allowedMenu
unfoldable pub allowed_menu : Role → Text → Bool
unfolding menu_role
allowed_menu r id = elim (menu_role r.menu) [ none ↦ true | some m ↦ includes id m ]
