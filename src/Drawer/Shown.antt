-- ===== src/Drawer/Shown.antt =====
-- What the drawer shows after the calls that open and close it.
use wachen.Base.{
  ◌≡◌, refl, ◌∙◌, ap, false, some, List, Text, utf16, starts_with, Option-cases, inl, inr, text_Eq,
  ==_refl,
}
use wachen.Base.LastBy.{last_by-update}
use mathlib.Core.Option
use wachen.Case.{WaCase, WaStore}
use wachen.Db.{
  App, by_id, open_case, open_store, close_drawer, persist, bump, marked_read, update_by_id,
}
use wachen.Roles.Table.{Role}
use wachen.Drawer.CaseDrawer.{panel_of, case_panel}
use wachen.Drawer.StoreDrawer.{store_panel}
use wachen.Drawer.{drawer_host, escape, hidden, case_content, store_content}

by_id-read :
    (id : Text) (cs : List WaCase) (c : WaCase)
    → by_id id cs ≡ some c
    → by_id id (update_by_id id marked_read cs) ≡ some (marked_read c)
unfolding by_id update_by_id
by_id-read id cs c h =
    last_by-update (λ d. d.id) id id marked_read (λ d. refl) cs ∙ (rw (==_refl id, h) refl)

case_panel-found :
    (lower : Text → Text) (role : Role) (id : Text) (cs : List WaCase) (c : WaCase)
    → by_id id cs ≡ some c
    → case_panel lower role id cs ≡ some (panel_of lower role c)
unfolding case_panel
case_panel-found lower role id cs c h = ap (Option.map (panel_of lower role)) h

panel_of-read :
    (lower : Text → Text) (role : Role) (c : WaCase)
    → some (panel_of lower role (marked_read c)) ≡ some (panel_of lower role c)
unfolding panel_of
panel_of-read lower role c = refl

module _ (lower : Text → Text) (role : Role) (stores : List WaStore) (s : App) where
  -- After `openStore` the drawer shows the store of that name.
  drawer_host-open_store :
      (name : Text)
      → drawer_host lower role stores (open_store name s)
        ≡ store_content (store_panel stores name s.cases)
  unfolding drawer_host open_store bump
  drawer_host-open_store name = refl

  -- The key `Escape` leaves it hidden.
  drawer_host-escape : drawer_host lower role stores (escape s) ≡ hidden
  unfolding drawer_host escape close_drawer bump
  drawer_host-escape = elim (Option-cases s.open_id) [ inl e ↦ rw e refl | inr (id, e) ↦ rw e refl ]

  -- After `openCase` with the id of a case, it shows that case.
  drawer_host-open_case :
      (id : Text) (c : WaCase)
      → by_id id s.cases ≡ some c
      → starts_with id (utf16 "store:") ≡ false
      → drawer_host lower role stores (open_case id s) ≡ case_content (some (panel_of lower role c))
  unfolding drawer_host open_case persist bump
  drawer_host-open_case id c h k =
      rw (h, k)
        (ap case_content (
          case_panel-found lower role id (update_by_id id marked_read s.cases) (marked_read c)
            (by_id-read id s.cases c h)
          ∙ panel_of-read lower role c))

-- After `openStore` the drawer shows the store of that name, and after `openCase` the case of that id,
-- which does not start like the name of a store; `Escape` hides it whatever it shows.
pub drawer_host_lem :
    (lower : Text → Text) (role : Role) (stores : List WaStore) (s : App) (name id : Text)
    (c : WaCase)
    → by_id id s.cases ≡ some c
    → starts_with id (utf16 "store:") ≡ false
    → let shown = drawer_host lower role stores in
      (shown (open_store name s) ≡ store_content (store_panel stores name s.cases))
      × (shown (open_case id s) ≡ case_content (some (panel_of lower role c)))
      × (shown (escape s) ≡ hidden)
drawer_host_lem lower role stores s name id c h k = (
  drawer_host-open_store lower role stores s name,
  drawer_host-open_case lower role stores s id c h k,
  drawer_host-escape lower role stores s,
)
