-- ===== src/Shell.antt =====
-- `Shell` of `admin/src/App.tsx`, with `MENU` and `TITLES` of `admin/src/lib/roles.ts`: when it leads
-- elsewhere, and else what stands in the side bar and the bar at the top. `RoleState` is the state of
-- the modules `db.ts` and `roles.ts` at the moment that it is drawn.
pub mod Targets
pub mod Routing
mod Tests
use wachen.Base.{
  ℕ, Bool, true, false, not, ◌&&◌, ◌||◌, String, List, [], ◌∷◌, ◌++◌, map, Option, none, some,
  or_else, is_some, Text, utf16, text_Eq, ◌==◌, if◌then◌else◌, filter, cnt, get, get_elem?, length,
  ltb, is_empty,
}
use wachen.Base.Fields.{fields}
use wachen.Domain.{unassigned, open_, status_Eq}
use wachen.Case.{WaCase, Notice}
use wachen.Roles.Table.{RoleId, Role, roles, allowed_menu}
use wachen.Roles.Session.{RoleState, allowed_role_ids, cur_role}
use wachen.Roles.Scope.{truthy, scoped_cases, scoped_notifications}

-- MENU
abbrev pub menu : List (String × List (Text × String))
menu =
    ("總覽", (utf16 "dashboard", "首頁總覽") ∷ [])
    ∷ ("案件與評論", (utf16 "reviews", "負評管理") ∷ (utf16 "cases", "客訴案件") ∷ (utf16 "sla", "SLA 監控") ∷ [])
    ∷ (
      "門市與分析",
      (utf16 "stores", "門市管理")
          ∷ (utf16 "causes", "負評原因分析")
          ∷ (utf16 "voice", "顧客聲量與情緒")
          ∷ (utf16 "ai", "AI 洞察中心")
          ∷ [],
    )
    ∷ ("改善與成效", (utf16 "tasks", "改善任務") ∷ (utf16 "improve", "改善成效分析") ∷ [])
    ∷ (
      "系統",
      (utf16 "notifications", "通知中心")
          ∷ (utf16 "reports", "報表中心")
          ∷ (utf16 "rules", "規則設定")
          ∷ (utf16 "org", "組織與權限")
          ∷ (utf16 "sources", "資料來源")
          ∷ [],
    )
    ∷ (
      "後台整合（正式 API）",
      (utf16 "inbox", "即時案件（DB）")
          ∷ (utf16 "pipeline", "AI 處理進度")
          ∷ (utf16 "approvals", "回覆審核")
          ∷ [],
    )
    ∷ []

-- TITLES
abbrev pub titles : List (Text × String)
titles =
    (utf16 "dashboard", "總部管理儀表板")
    ∷ (utf16 "store", "店經理即時儀表板")
    ∷ (utf16 "reviews", "負評管理")
    ∷ (utf16 "cases", "客訴案件")
    ∷ (utf16 "sla", "SLA 監控中心")
    ∷ (utf16 "stores", "門市管理")
    ∷ (utf16 "causes", "負評原因分析")
    ∷ (utf16 "voice", "顧客聲量與情緒分析")
    ∷ (utf16 "ai", "AI 洞察中心")
    ∷ (utf16 "tasks", "改善任務管理")
    ∷ (utf16 "improve", "改善成效分析")
    ∷ (utf16 "notifications", "通知中心")
    ∷ (utf16 "reports", "報表中心")
    ∷ (utf16 "rules", "規則設定")
    ∷ (utf16 "org", "組織與權限")
    ∷ (utf16 "sources", "資料來源管理")
    ∷ (utf16 "inbox", "即時案件（正式資料）")
    ∷ (utf16 "pipeline", "AI 處理進度")
    ∷ (utf16 "approvals", "回覆審核")
    ∷ []

-- `loc.pathname.split("/")[1] || "dashboard"`
unfoldable pub view_of : Text → Text
view_of pathname = or_else (truthy (get_elem? (fields b'/' pathname) 1)) (utf16 "dashboard")

abbrev pub at_store_home : Role → Bool
at_store_home role = role.home == utf16 "/store"

-- A page with a title that the role of `getRole()`, `current`, may not see; `role` is that of
-- `curRole`, and the dashboard of a store is the page `store`.
unfoldable pub is_forbidden : Role → Role → Text → Bool
unfolding allowed_menu
is_forbidden role current view =
    let eff_view =
      if view == utf16 "dashboard" && at_store_home role then utf16 "store" else view in
    not (eff_view == utf16 "store")
    && (not (eff_view == utf16 "cases")
        && (not (allowed_menu current eff_view) && is_some (get eff_view titles)))

-- Where the guard of the shell leads to, if it does.
unfoldable pub guard : Role → Role → Text → Option Text
guard role current view = if is_forbidden role current view then some role.home else none

pub record Item : Type 0 where
  pub id : Text
  pub label : String
  pub target : Text
  pub on : Bool
  pub count : ℕ

-- One button of the side bar.
unfoldable pub item : Role → Text → ℕ → ℕ → Text × String → Item
item role view open_count alerts it = record {
  id = it.0;
  label = it.1;
  target =
      if it.0 == utf16 "dashboard"
      then (if at_store_home role then utf16 "/store" else utf16 "/dashboard")
      else utf16 "/" ++ it.0;
  on =
      if it.0 == utf16 "dashboard"
      then view == utf16 "dashboard" || view == utf16 "store"
      else view == it.0;
  count =
      if it.0 == utf16 "cases"
      then open_count
      else if it.0 == utf16 "notifications"
      then alerts
      else 0;
}

-- The items of a group that the current role may see.
abbrev pub seen_items : Role → List (Text × String) → List (Text × String)
seen_items current its = filter (λ it. allowed_menu current it.0) its

-- The groups of the side bar; one with nothing to see is left out.
unfoldable pub groups :
    Role → Role → Text → ℕ → ℕ → List (String × List (Text × String)) → List (String × List Item)
unfolding item allowed_menu
groups role current view open_count alerts [] = []
groups role current view open_count alerts ((g, its) ∷ gs) =
    let rest = groups role current view open_count alerts gs in
    elim (seen_items current its) [
      | [] ↦ rest
      | it ∷ more ↦ (g, map (item role view open_count alerts) (it ∷ more)) ∷ rest
    ]

pub data ScopeLabel : Type 0 where
  at_store : Text → ScopeLabel
  of_role : Option String → ScopeLabel

-- `role.store ? "門市：" + role.store : role.scope ?? "—"`
abbrev pub scope_label : Role → ScopeLabel
scope_label role = elim (truthy role.store) [ none ↦ of_role role.scope | some s ↦ at_store s ]

pub record Frame : Type 0 where
  pub side_bar : List (String × List Item)
  pub crumb : String
  pub choices : List RoleId
  pub alerts : ℕ
  pub scope : ScopeLabel
  pub visible : ℕ
  pub masked : Bool

pub data Screen : Type 0 where
  redirect : Text → Screen
  frame : Frame → Screen

-- `["unassigned", "open"].includes(c.cstatus)`
abbrev pub is_new : WaCase → Bool
is_new c = unassigned == c.cstatus || open_ == c.cstatus

abbrev pub or_redirect : Option Text → Frame → Screen
or_redirect none f = frame f
or_redirect (some to) f = redirect to

-- What is drawn around the page.
unfoldable pub frame_of : Text → Text → Role → Role → Text → RoleState → Frame
unfolding groups allowed_role_ids scoped_cases scoped_notifications
frame_of first account role current view s =
    let allowed = allowed_role_ids first account in
    let sc = scoped_cases current s.app.cases in
    let alerts = cnt (λ n. not n.read) (scoped_notifications current s.app.cases s.app.notices) in
    record {
      side_bar = groups role current view (cnt is_new sc) alerts menu;
      crumb = or_else (get view titles) "總覽";
      choices = if ltb 1 (length allowed) then allowed else [];
      alerts = alerts;
      scope = scope_label role;
      visible = length sc;
      masked = not role.pii;
    }

-- `first` is the name of the first store, `account` is `auth.backendRole()`, `token` is
-- `auth.token()`. The select of roles is drawn where there is more than one.
unfoldable pub shell : Text → Text → Option Text → RoleState → Text → Screen
shell first account token s pathname =
    let role = roles first (cur_role first account s.role_id) in
    let current = roles first s.role_id in
    let view = view_of pathname in
    elim (truthy token) [
      | none ↦ redirect (utf16 "/login")
      | some _ ↦ or_redirect (guard role current view) (frame_of first account role current view s)
    ]
