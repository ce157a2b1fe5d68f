-- ===== src/Mobile/Menu.antt =====
-- The further menu of the mobile client: MORE_MENU of `mobile/src/auth/roles.ts`, its groups in
-- `mobile/app/(tabs)/more.tsx`, and the pages behind it, `mobile/app/more/[view].tsx`.
use wachen.Base.{
  add_new, List, [], ◌∷◌, map, Option, none, some, Text, utf16, String, text_Eq, ◌==◌, filter, find,
}
use wachen.Domain.{risk_Eq, status_Eq}
use wachen.Pages.Tasks.{Task}
use wachen.Mobile.Domain.{Store}
use wachen.Mobile.Roles.{
  ViewId, sla, stores, causes, voice, ai, tasks, improve, reports, rules, org, sources, view_eq,
  Role, allowed_view,
}
use wachen.Mobile.Facets.{Facets, DataSource}

pub record MenuItem : Type 0 where
  pub id : ViewId
  pub icon : Text
  pub title : String
  pub group : Text

abbrev item : ViewId → Text → String → String → MenuItem
item id icon title group = record { id = id; icon = icon; title = title; group = utf16 group }

-- MORE_MENU
unfoldable pub more_menu : List MenuItem
more_menu =
    item sla (0x23f1 ∷ 0xfe0f ∷ []) "SLA 監控" "案件與評論"
    ∷ item stores (utf16 "🏪") "門市管理" "門市與分析"
    ∷ item causes (utf16 "🔍") "負評原因分析" "門市與分析"
    ∷ item voice (utf16 "📈") "顧客聲量與情緒" "門市與分析"
    ∷ item ai (utf16 "🤖") "AI 洞察中心" "門市與分析"
    ∷ item tasks (utf16 "✅") "改善任務" "改善與成效"
    ∷ item improve (utf16 "📊") "改善成效分析" "改善與成效"
    ∷ item reports (utf16 "📑") "報表中心" "系統"
    ∷ item rules (0x2699 ∷ 0xfe0f ∷ []) "規則設定" "系統"
    ∷ item org (utf16 "🏢") "組織與權限" "系統"
    ∷ item sources (utf16 "🔌") "資料來源" "系統"
    ∷ []

unfoldable pub visible : Role → List MenuItem
unfolding more_menu
visible role = filter (λ m. allowed_view role m.id) more_menu

-- The groups of the menu, each with its items.
unfoldable pub menu_groups : Role → List (Text × List MenuItem)
unfolding visible
menu_groups role =
    map (λ g. (g, filter (λ m. m.group == g) (visible role)))
      (add_new [] (map (λ m. m.group) (visible role)))

-- What stands on a page behind the menu, `mobile/app/more/[view].tsx`.
pub data MorePage : Type 0 where
  store_lines : List Store → MorePage
  source_lines : List DataSource → MorePage
  task_lines : List Task → MorePage
  second_phase : MorePage

abbrev page_of : ViewId → Facets → MorePage
page_of stores f = store_lines f.stores
page_of sources f = source_lines f.sources
page_of tasks f = task_lines f.tasks
page_of _ f = second_phase

-- MoreView
unfoldable pub more_view : ViewId → Option Facets → MorePage
more_view view none = second_phase
more_view view (some f) = page_of view f

unfoldable pub more_title : ViewId → String
unfolding more_menu
more_title view = title_of (find (λ m. view_eq m.id view) more_menu)
  where
    title_of : Option MenuItem → String
    title_of none = "功能"
    title_of (some m) = m.title
