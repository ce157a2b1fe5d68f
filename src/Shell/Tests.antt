-- ===== src/Shell/Tests.antt =====
-- Runs of the shell.
use wachen.Base.{false, ◌≡◌, refl, [], ◌∷◌, utf16, none, some, inl, inr, Text}
use wachen.Base.Predicates.{In}
use wachen.Roles.Table.{pr, region, roles}
use wachen.Roles.Session.{RoleState, sync_role, sync_effect, allowed_role_ids}
use wachen.Db.{absent, start}
use wachen.Shell.{Screen, Frame, redirect, frame, frame_of, shell, view_of, guard, Item}
use wachen.Shell.Targets.{all_items}
use wachen.Shell.Routing.{
  Element, page, login_page, route_table, element_at, in_shell, draw, settle, choose_role,
}
use wachen.Shell.Routing.Navigation.{navigation_ends}
use wachen.Shell.Routing.SideBar.{side_bar-settle, choose_role-settle}
use wachen.Shell.Routing.SimpleRouter.{pick, pick-IsRouter}
use wachen.Samples.{raws, about_soup}

abbrev at_pr : RoleState
at_pr = record { app = start absent false raws (about_soup ∷ []); role_id = pr; role_key = none }

signed_out : shell [] (utf16 "pr_legal") none at_pr (utf16 "/rules") ≡ redirect (utf16 "/login")
unfolding shell
signed_out = refl

-- Public relations may not see the rules.
rules_lead_home :
    shell []
      (utf16 "pr_legal")
      (some (utf16 "t"))
      (sync_role [] (utf16 "pr_legal") at_pr)
      (utf16 "/rules")
    ≡ redirect (utf16 "/reviews")
unfolding shell guard wachen.Shell.is_forbidden view_of roles wachen.Roles.Session.cur_role
    sync_role start
rules_lead_home = refl

at_pr_room : at_pr.app.storage_full ≡ false
unfolding start
at_pr_room = refl

region_offered : In region (allowed_role_ids [] (utf16 "pr_legal"))
unfolding allowed_role_ids roles
region_offered = inr (inl refl)

abbrev cases_frame : Frame
cases_frame =
    frame_of [] (utf16 "pr_legal") (roles [] pr) (roles [] pr) (utf16 "cases")
      (sync_role [] (utf16 "pr_legal") at_pr)

cases_shown :
    shell []
      (utf16 "pr_legal")
      (some (utf16 "t"))
      (sync_role [] (utf16 "pr_legal") at_pr)
      (utf16 "/cases")
    ≡ frame cases_frame
unfolding shell guard wachen.Shell.is_forbidden view_of roles wachen.Roles.Session.cur_role
    sync_role start
cases_shown = refl

abbrev home_button : Item
home_button = record {
  id = utf16 "dashboard";
  label = "首頁總覽";
  target = utf16 "/dashboard";
  on = false;
  count = 0;
}

home_offered : In home_button (all_items cases_frame.side_bar)
unfolding frame_of roles sync_role start
home_offered = inl refl

no_throw : (sync_effect [] (utf16 "pr_legal") at_pr).1 ≡ false
unfolding sync_effect wachen.Roles.Session.cur_role roles
no_throw = refl

-- An address that no route has, without a token.
navigation_ends_example :
    (r : Text × Element) × (settle pick []
        (utf16 "pr_legal")
        none
        (sync_effect [] (utf16 "pr_legal") at_pr).0
        3
        (utf16 "/nowhere")
      ≡ some r)
    × (r.1 ≡ login_page)
navigation_ends_example =
    navigation_ends pick [] (utf16 "pr_legal") none at_pr 0 (utf16 "/nowhere") pick-IsRouter
      no_throw

-- The same with a token, as public relations: the catch-all, `Home`, and the reviews.
two_redirects :
    settle pick []
      (utf16 "pr_legal")
      (some (utf16 "t"))
      (sync_role [] (utf16 "pr_legal") at_pr)
      3
      (utf16 "/nowhere")
    ≡ some (utf16 "/reviews", page (utf16 "/reviews"))
unfolding settle draw element_at route_table in_shell shell guard wachen.Shell.is_forbidden view_of
    roles wachen.Roles.Session.cur_role sync_role start frame_of
two_redirects = refl

side_bar-settle_example :
    settle pick []
      (utf16 "pr_legal")
      (some (utf16 "t"))
      (sync_role [] (utf16 "pr_legal") at_pr)
      1
      (utf16 "/dashboard")
    ≡ some (utf16 "/dashboard", page (utf16 "/dashboard"))
side_bar-settle_example =
    side_bar-settle pick [] (utf16 "pr_legal") b't' [] (utf16 "/cases") at_pr cases_frame
      home_button 0 pick-IsRouter cases_shown home_offered

choose_role-settle_example :
    let c = choose_role [] region at_pr in
    (c.0.role_id ≡ region)
    × (sync_role [] (utf16 "pr_legal") c.0 ≡ c.0)
    × (c.1 ≡ some (utf16 "/dashboard"))
    × (settle pick [] (utf16 "pr_legal") (some (utf16 "t")) c.0 1 (utf16 "/dashboard")
        ≡ some (utf16 "/dashboard", page (utf16 "/dashboard")))
unfolding roles
choose_role-settle_example =
    choose_role-settle pick [] (utf16 "pr_legal") b't' [] at_pr region 0 pick-IsRouter at_pr_room
      region_offered
