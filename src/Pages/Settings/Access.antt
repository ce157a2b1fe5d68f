-- ===== src/Pages/Settings/Access.antt =====
-- Who gets to the pages of settings: the guard of the shell and that of the pages themselves.
use wachen.Base.{
  ◌≡◌, refl, ◌∙◌, sym, ap, ◌↔◌, ◌≢◌, ℕ, Bool, true, false, ◌∷◌, List, Option, none, some, Text,
  utf16, if◌then◌else◌, Bool-cases, inl, inr,
}
use wachen.Roles.Table.{RoleId, hq, Role, roles}
use wachen.Roles.Session.{RoleState, sync_role}
use wachen.Shell.{Frame, Screen, frame, redirect, or_redirect, shell, guard, is_forbidden, view_of}
use wachen.Shell.Targets.{own_guard, own_frame, shell-own, sync_role-IsSynced}
use wachen.Pages.Settings.{shows, refuses, guarded, Rules, rules_page}
use wachen.Pages.Org.{OrgTree, OrgRole, org_page}

-- Where the shell leads from a page that needs `role.rules`.
abbrev way_out : Role → Option Text
way_out r = if r.rules then none else some r.home

rules_guard :
    (first : Text) (id : RoleId)
    → own_guard (roles first id) (utf16 "/rules") ≡ way_out (roles first id)
unfolding roles view_of guard is_forbidden
rules_guard first hq = refl
rules_guard first _ = refl

org_guard :
    (first : Text) (id : RoleId)
    → own_guard (roles first id) (utf16 "/org") ≡ way_out (roles first id)
unfolding roles view_of guard is_forbidden
org_guard first hq = refl
org_guard first _ = refl

frame-redirect : {f : Frame} {to : Text} → frame f ≢ redirect to
frame-redirect p = cc

shows-refuses : {A : Type 0} {a : A} {t : wachen.Base.String} → shows a ≢ refuses t
shows-refuses p = cc

-- A guarded page refuses a role exactly where the shell turns it away.
refuses-way_out :
    {A : Type 0} (r : Role) (page : A) (f : Frame)
    → (guarded r page ≡ refuses r.title) ↔ (or_redirect (way_out r) f ≡ redirect r.home)
unfolding guarded
refuses-way_out r page f = elim (Bool-cases r.rules) [
  | inl e ↦ rw e ((λ p. absurd (shows-refuses p)), (λ p. absurd (frame-redirect p)))
  | inr e ↦ rw e ((λ p. refl), (λ p. refl))
]

refuses-drawn :
    {A : Type 0} (r : Role) (page : A) (f : Frame) (x : Screen)
    → x ≡ or_redirect (way_out r) f
    → (guarded r page ≡ refuses r.title) ↔ (x ≡ redirect r.home)
refuses-drawn r page f x e = rw e (refuses-way_out r page f)

-- Signed in, and once the effect of the shell has run: the page of the rules and that of the organisation
-- refuse a role exactly where the shell sends it to its home instead.
pub settings-shell :
    (first account : Text) (a : ℕ) (tok : Text) (s : RoleState) (rules : Rules) (tree : OrgTree)
    (rs : List OrgRole)
    → let t = sync_role first account s in
      let r = roles first t.role_id in
      let screen = shell first account (some (a ∷ tok)) t in
      ((rules_page r rules ≡ refuses r.title) ↔ (screen (utf16 "/rules") ≡ redirect r.home))
      × ((org_page r tree rs ≡ refuses r.title) ↔ (screen (utf16 "/org") ≡ redirect r.home))
unfolding rules_page org_page
settings-shell first account a tok s rules tree rs =
    let t = sync_role first account s in
    let synced = sync_role-IsSynced first account s in
    let drawn = shell-own first account a tok in
    let on = own_frame first account t in
    let r = roles first t.role_id in
    (
      refuses-drawn r _ (on (utf16 "/rules")) _ (
          drawn (utf16 "/rules") t synced
          ∙ ap (λ g. or_redirect g (on (utf16 "/rules"))) (rules_guard first t.role_id)),
      refuses-drawn r _ (on (utf16 "/org")) _ (
          drawn (utf16 "/org") t synced
          ∙ ap (λ g. or_redirect g (on (utf16 "/org"))) (org_guard first t.role_id)),
    )
