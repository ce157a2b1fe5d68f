-- ===== src/Mobile/Screens.antt =====
-- The other screens of the mobile client, `mobile/app`: reviews, notifications, the
-- bar of tabs, the sign-in and a store.
pub mod Laws
use wachen.Base.{
  ◌≡◌, ℕ, Bool, true, false, not, ◌&&◌, List, [], ◌∷◌, ◌++◌, map, Option, none, some, or_else,
  is_some, Text, utf16, String, text_Eq, ◌==◌, if◌then◌else◌, filter, find, length, cnt, includes,
  ltb, any,
}
use wachen.Base.Int.{ℤ}
use wachen.Base.Sort.{sort}
use wachen.Domain.{RiskLevel, high, medium, low, CaseStatus, unassigned, open_, risk_Eq, status_Eq}
use wachen.Case.{Notice, NoticeLevel, critical, warning, serious, good}
use wachen.Roles.Scope.{truthy}
use wachen.Filter.Mobile.{ReviewFilters, initial, apply_filters}
use wachen.Pages.Tasks.{Task}
use wachen.Mobile.Domain.{Case, Store}
use wachen.Mobile.Roles.{
  RoleId, hq, region, store, cs, pr, ViewId, sla, stores, causes, voice, ai, tasks, improve,
  reports, rules, org, sources, view_eq, Role, roles, allowed_view,
}
use wachen.Mobile.Session.{SessionState, sign_in, sign_out}
use wachen.Mobile.Facets.{Facets, DataSource}
use wachen.Mobile.CaseItem.{CaseItem, case_item, Delta, delta_of}

-- RISK_CHIPS
abbrev pub risk_chips : List (String × Option RiskLevel)
risk_chips = ("全部", none) ∷ ("高風險", some high) ∷ ("中風險", some medium) ∷ ("低風險", some low) ∷ []

-- `filters.set("risk", chip.value)` and `filters.set("q", v)`
unfoldable pub set_risk : Option RiskLevel → ReviewFilters → ReviewFilters
set_risk r f = record f { risk = r }

unfoldable pub set_q : Text → ReviewFilters → ReviewFilters
set_q v f = record f { q = v }

-- `reset`
unfoldable pub reset : ReviewFilters → ReviewFilters
reset f = initial

pub record ReviewsView : Type 0 where
  pub total : ℕ
  pub items : List CaseItem

-- Reviews
unfoldable pub reviews :
    (Text → Text) → ℕ → (Text → Text → Bool) → ReviewFilters → List Case → ReviewsView
unfolding apply_filters case_item
reviews lower now precedes f cases =
    let rows = apply_filters lower now precedes f cases in
    record { total = length rows; items = map case_item rows }

-- LEVEL_ICON
unfoldable pub level_icon : NoticeLevel → Text
level_icon critical = utf16 "🚨"
level_icon warning = 0x26a0 ∷ 0xfe0f ∷ []
level_icon serious = utf16 "🔶"
level_icon good = utf16 "✅"

pub record NoticeItem : Type 0 where
  pub icon : Text
  pub title : Text
  pub body : Text
  pub foot : Text
  pub dim : Bool
  pub target : Option Text

abbrev case_target : Option Text → Option Text
case_target none = none
case_target (some id) = some (utf16 "/case/" ++ id)

-- A notification; without a case it is disabled, and has no target.
unfoldable pub notice_item : Notice → NoticeItem
unfolding level_icon
notice_item n = record {
  icon = level_icon n.level;
  title = n.title;
  body = n.body;
  foot = n.channel ++ utf16 " · " ++ n.time;
  dim = n.read;
  target = case_target (truthy n.case_id);
}

abbrev notices_of : Option Facets → List Notice
notices_of none = []
notices_of (some f) = f.notifications

-- Notifications
unfoldable pub notifications : Option Facets → List NoticeItem
unfolding notice_item
notifications facets = map notice_item (notices_of facets)

-- The keys of ROLES, which the switch of roles and the sign-in list.
abbrev pub role_ids : List RoleId
role_ids = hq ∷ region ∷ RoleId.store ∷ cs ∷ pr ∷ []

-- Where the app is: its session, and the path of its screen.
pub record AppState : Type 0 where
  pub session : SessionState
  pub path : Text

-- The button that signs out.
unfoldable pub leave : AppState → AppState
unfolding sign_out
leave s = record { session = sign_out s.session; path = utf16 "/login" }

-- The redirect of `mobile/app/index.tsx`.
unfoldable pub index_path : SessionState → Text
index_path s = if is_some (truthy s.token) then utf16 "/(tabs)" else utf16 "/login"

-- How the call of the sign-in ended.
pub data SignIn : Type 0 where
  token : Text → SignIn
  refused : SignIn

-- `submit` of `mobile/app/login.tsx`; a refusal is thrown, and the mutation shows it.
unfoldable pub submit : RoleId → SignIn → AppState → AppState
unfolding sign_in
submit id (token t) s = record { session = sign_in t id s.session; path = utf16 "/(tabs)" }
submit id refused s = s

-- The bar of tabs: the redirect without a token, and the two badges.
pub data Tabs : Type 0 where
  redirect : Text → Tabs
  tabs : Option ℕ → Option ℕ → Tabs

abbrev badge : ℕ → Option ℕ
badge n = if ltb 0 n then some n else none

unfoldable pub open_count : List Case → ℕ
open_count cases = cnt (λ c. includes c.cstatus (unassigned ∷ open_ ∷ [])) cases

unfoldable pub unread : List Notice → ℕ
unread ns = cnt (λ n. not n.read) ns

-- TabsLayout
unfoldable pub tabs_layout : SessionState → Option (List Case) → Option Facets → Tabs
unfolding open_count unread
tabs_layout s cases facets =
    if is_some (truthy s.token)
    then tabs (badge (open_count (or_else cases []))) (badge (unread (notices_of facets)))
    else redirect (utf16 "/login")

pub record StoreHead : Type 0 where
  pub title : Text
  pub place : Text
  pub avg_rating : ℕ
  pub delta : Delta
  pub neg : ℕ
  pub neg_rate : ℕ
  pub sla_rate : ℕ

abbrev store_head : Store → StoreHead
store_head s = record {
  title = s.store;
  place = s.brand ++ utf16 " · " ++ s.region ++ utf16 " · 店經理 " ++ s.manager;
  avg_rating = s.avg_rating;
  delta = delta_of s.trend;
  neg = s.neg;
  neg_rate = s.neg_rate;
  sla_rate = s.sla_rate;
}

pub record StoreScreen : Type 0 where
  pub head : Option StoreHead
  pub items : List CaseItem

abbrev head_of : Option Store → Option StoreHead
head_of none = none
head_of (some s) = some (store_head s)

abbrev stores_of : Option Facets → List Store
stores_of none = []
stores_of (some f) = f.stores

-- StoreDetail of `mobile/app/store/[code].tsx`
unfoldable pub store_screen : (Text → Text → Bool) → Text → Option Facets → List Case → StoreScreen
unfolding sort case_item
store_screen precedes code facets cases = record {
  head = head_of (find (λ s. s.code == code) (stores_of facets));
  items =
      map case_item
        (sort (λ a b. precedes b.posted_at a.posted_at) (filter (λ c. c.store_code == code) cases));
}
