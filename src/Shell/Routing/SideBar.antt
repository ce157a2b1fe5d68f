-- ===== src/Shell/Routing/SideBar.antt =====
-- Where the buttons of the side bar and the select of the roles lead.
use wachen.Base.{
  ◌≡◌, refl, ◌∙◌, ap, ℕ, suc, true, false, List, ◌∷◌, Option, some, Text, text_Eq, includes, arith,
}
use wachen.Base.Predicates.{In, All, All-In, includes_iff}
use wachen.Roles.Table.{RoleId, hq, roles}
use wachen.Roles.Tenant.{cur_role-In, sync_role_fixed}
use wachen.Roles.Session.{RoleState, sync_role, allowed_role_ids, cur_role}
use wachen.Shell.{Frame, frame, or_redirect, shell, view_of, frame_of, Item, groups, menu}
use wachen.Shell.Targets.{
  own_guard, own_frame, shell-own, sync_role-IsSynced, cur_role-IsSynced, home-shown, targets_shown,
  all_items, frame-own,
}
use wachen.Shell.Routing.{page, views, IsRouter, in_shell, draw, settle, choose_role}
use wachen.Shell.Routing.Ends.{element-IsAt, views-IsAt}

items-views :
    (first : Text) (id : RoleId) (view : Text) (n m : ℕ)
    → All
        (λ i. includes i.target views ≡ true)
        (all_items (groups (roles first id) (roles first id) view n m menu))
unfolding roles groups views
items-views first hq view n m = ground arith
items-views first _ view n m = ground arith

-- A path of VIEWS at which the shell draws its frame is the end of the way.
settle-view :
    (pick : List Text → Text → Option Text) (first account : Text) (token : Option Text)
    (s : RoleState) (n : ℕ) (p : Text) (f : Frame)
    → IsRouter pick
    → In p views
    → shell first account token s p ≡ frame f
    → settle pick first account token s (suc n) p ≡ some (p, page p)
unfolding settle draw in_shell
settle-view pick first account token s n p f router m h =
    rw (element-IsAt pick router p (page p) (All-In _ views views-IsAt m), h) refl

-- Signed in, and once the effect of the shell has run, every button of the side bar of a page that is
-- shown leads to the page that the routes have for it, without a redirect.
pub side_bar-settle :
    (pick : List Text → Text → Option Text) (first account : Text) (a : ℕ) (tok pathname : Text)
    (s : RoleState) (f : Frame) (i : Item) (n : ℕ)
    → IsRouter pick
    → shell first account (some (a ∷ tok)) (sync_role first account s) pathname ≡ frame f
    → In i (all_items f.side_bar)
    → settle pick first account (some (a ∷ tok)) (sync_role first account s) (suc n) i.target
      ≡ some (i.target, page i.target)
unfolding frame_of
side_bar-settle pick first account a tok pathname s f i n router h m =
    let t = sync_role first account s in
    let synced = sync_role-IsSynced first account s in
    let mine = rw (← frame-own first account a tok pathname t f synced h) at m in
    let among = All-In _ _ (items-views first t.role_id (view_of pathname) _ _) mine in
    let (g, k) = targets_shown first account a tok pathname s f i h m in
    settle-view pick first account (some (a ∷ tok)) t n i.target g router
      ((includes_iff i.target views).0 among) k

homes-views : (first : Text) (id : RoleId) → includes (roles first id).home views ≡ true
unfolding roles views
homes-views first hq = refl
homes-views first _ = refl

choose_role-role_id :
    (first : Text) (id : RoleId) (s : RoleState)
    → s.app.storage_full ≡ false
    → (choose_role first id s).0.role_id ≡ id
unfolding choose_role
choose_role-role_id first id s room = rw room refl

choose_role-target :
    (first : Text) (id : RoleId) (s : RoleState)
    → s.app.storage_full ≡ false
    → (choose_role first id s).1 ≡ some (roles first id).home
unfolding choose_role
choose_role-target first id s room = rw room refl

-- Signed in, and with room in the storage: choosing a role that the account can switch to makes it the
-- current one, the shell keeps it, and the browser is at the home of that role without a redirect.
pub choose_role-settle :
    (pick : List Text → Text → Option Text) (first account : Text) (a : ℕ) (tok : Text)
    (s : RoleState) (id : RoleId) (n : ℕ)
    → IsRouter pick
    → s.app.storage_full ≡ false
    → In id (allowed_role_ids first account)
    → let c = choose_role first id s in
      let home = (roles first id).home in
      (c.0.role_id ≡ id)
      × (sync_role first account c.0 ≡ c.0)
      × (c.1 ≡ some home)
      × (settle pick first account (some (a ∷ tok)) c.0 (suc n) home ≡ some (home, page home))
choose_role-settle pick first account a tok s id n router room m =
    let t = (choose_role first id s).0 in
    let home = (roles first id).home in
    let own = choose_role-role_id first id s room in
    let synced : cur_role first account t.role_id ≡ t.role_id =
      rw own (cur_role-In first account id m) in
    let drawn : shell first account (some (a ∷ tok)) t home
        ≡ frame (own_frame first account t home) =
      shell-own first account a tok home t (cur_role-IsSynced first account t synced)
      ∙ ap (λ g. or_redirect g (own_frame first account t home))
          (ap (λ x. own_guard (roles first x) home) own ∙ home-shown first id) in
    (
      own,
      sync_role_fixed first account t synced,
      choose_role-target first id s room,
      settle-view pick first account (some (a ∷ tok)) t n home (own_frame first account t home)
          router ((includes_iff home views).0 (homes-views first id)) drawn,
    )
