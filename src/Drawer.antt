-- ===== src/Drawer.antt =====
-- The drawer of the admin client, `admin/src/components/Drawer.tsx`: which panel it shows, and how it
-- closes. `Drawer.CaseDrawer` and `Drawer.StoreDrawer` are the two panels.
pub mod Facts
pub mod CaseDrawer
pub mod StoreDrawer
pub mod Timeline
pub mod Privacy
pub mod Counts
pub mod Shown
mod Tests
use wachen.Base.{
  Bool, true, false, List, Option, none, some, Text, utf16, if◌then◌else◌, is_some, starts_with,
  drop,
}
use wachen.Case.{WaCase, WaStore}
use wachen.Db.{App, close_drawer}
use wachen.Roles.Table.{Role}
use wachen.Drawer.CaseDrawer.{CasePanel, case_panel}
use wachen.Drawer.StoreDrawer.{StorePanel, store_panel}

-- What stands in the drawer: nothing, or one of the panels, which is empty where nothing is found.
pub data Content : Type 0 where
  hidden : Content
  case_content : Option CasePanel → Content
  store_content : Option StorePanel → Content

abbrev store_prefix : Text
store_prefix = utf16 "store:"

module _ (lower : Text → Text) (role : Role) (stores : List WaStore) (cases : List WaCase) where
  -- The panel for an `openId`.
  abbrev pub content_of : Text → Content
  content_of id =
      if starts_with id store_prefix
      then store_content (store_panel stores (drop 6 id) cases)
      else case_content (case_panel lower role id cases)

  abbrev pub content : Option Text → Content
  content none = hidden
  content (some id) = content_of id

-- DrawerHost
unfoldable pub drawer_host : (Text → Text) → Role → List WaStore → App → Content
unfolding case_panel store_panel
drawer_host lower role stores s = content lower role stores s.cases s.open_id

-- The key `Escape`, for which the drawer listens while it is open.
unfoldable pub escape : App → App
unfolding close_drawer
escape s = if is_some s.open_id then close_drawer s else s
