-- ===== src/Drawer/Tests.antt =====
-- Runs of the drawer.
use wachen.Base.{text_Eq, nat_eq, ◌≡◌, refl, [], some, false, utf16, Text}
use wachen.Db.{App, absent, start, by_id, open_case, open_store}
use wachen.Roles.Table.{Role, roles, store}
use wachen.Samples.{raws, open_soup, both}
use wachen.Drawer.{drawer_host, escape, hidden, case_content, store_content}
use wachen.Drawer.CaseDrawer
use wachen.Drawer.CaseDrawer.{timeline}
use wachen.Drawer.Facts.{phone_of}
use wachen.Drawer.StoreDrawer.{store_panel}
use wachen.Drawer.Shown.{drawer_host_lem}

abbrev as_is : Text → Text
as_is t = t

abbrev keeper : Role
keeper = roles (utf16 "East") store

abbrev soup_id : Text
soup_id = utf16 "3f00aa"

abbrev app : App
app = record (start absent false raws []) { cases = both }

found : by_id soup_id app.cases ≡ some open_soup
unfolding by_id
found = refl

phone_of_soup : phone_of open_soup ≡ utf16 "0912-345-300"
unfolding phone_of
phone_of_soup = refl

drawer_host_lem_example :
    let shown = drawer_host as_is keeper [] in
    (shown (open_store (utf16 "East") app)
      ≡ store_content (store_panel [] (utf16 "East") app.cases))
    × (shown (open_case soup_id app)
        ≡ case_content (some (wachen.Drawer.CaseDrawer.panel_of as_is keeper open_soup)))
    × (shown (escape app) ≡ hidden)
drawer_host_lem_example =
    drawer_host_lem as_is keeper [] app (utf16 "East") soup_id open_soup found refl
