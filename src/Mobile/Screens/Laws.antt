-- ===== src/Mobile/Screens/Laws.antt =====
-- The way in and out of the app, and its menu.
use wachen.Base.{◌≡◌, refl, ℕ, List, [], ◌∷◌, ◌++◌, map, Option, Text}
use wachen.Mobile.Domain.{Case}
use wachen.Mobile.Roles.{RoleId, hq, region, store, cs, pr, roles, allowed_view}
use wachen.Mobile.Facets.{Facets}
use wachen.Mobile.Menu.{visible, menu_groups}
use wachen.Mobile.Screens.{
  AppState, submit, token, refused, leave, index_path, tabs_layout, Tabs, redirect, tabs,
}

-- Whether the bar of tabs is drawn.
abbrev pub Drawn : Tabs → Type 0
Drawn (tabs a b) = Unit
Drawn (redirect p) = ⊥

-- A sign-in with a token that is not empty takes the role that was chosen, and both the start of the app
-- and the bar of tabs let the user in; a refused one changes nothing. Signing out leads back to the
-- sign-in: both send the user there, whatever data is still held.
submit-tabs_layout :
    (id : RoleId) (t : ℕ) (ts : Text) (s : AppState) (cases : Option (List Case))
    (facets : Option Facets)
    → let u = submit id (token (t ∷ ts)) s in
      let v = leave u in
      (u.session.role ≡ roles id)
      × (index_path u.session ≡ u.path)
      × Drawn (tabs_layout u.session cases facets)
      × (submit id refused s ≡ s)
      × (index_path v.session ≡ v.path)
      × (tabs_layout v.session cases facets ≡ redirect v.path)
unfolding submit leave index_path tabs_layout
submit-tabs_layout id t ts s cases facets = (refl, refl, tt, refl, refl, refl)

abbrev pub concat : {A : Type 0} → List (List A) → List A
concat [] = []
concat (xs ∷ xss) = xs ++ concat xss

-- The groups of the further menu, one after the other, have exactly the items that the role may see, in
-- the order of the menu: no item is lost, and none is shown twice.
pub menu_groups-visible :
    (id : RoleId) → concat (map (λ g. g.1) (menu_groups (roles id))) ≡ visible (roles id)
unfolding menu_groups roles allowed_view
menu_groups-visible hq = refl
menu_groups-visible region = refl
menu_groups-visible store = refl
menu_groups-visible cs = refl
menu_groups-visible pr = refl
