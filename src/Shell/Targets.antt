-- ===== src/Shell/Targets.antt =====
-- Where the shell leads: its redirects end, and its buttons lead to pages that it shows.
use wachen.Base.{
  ◌≡◌, refl, ◌∙◌, ap, sym, ℕ, List, [], ◌∷◌, ◌++◌, Option, none, some, String, Text, arith, ◌≢◌,
  Option-cases, text_Eq, Bool-cases, inl, inr,
}
use wachen.Base.Predicates.{In, All, All-In}
use wachen.Roles.Table.{RoleId, hq, Role, roles}
use wachen.Roles.Session.{RoleState, cur_role, sync_role}
use wachen.Roles.Tenant.{sync_role-role_id, cur_role_idem}
use wachen.Shell.{
  menu, view_of, guard, is_forbidden, Item, groups, Screen, Frame, redirect, frame, or_redirect,
  frame_of, shell,
}

-- The guard, for a role that is the current one.
abbrev pub own_guard : Role → Text → Option Text
own_guard r pathname = guard r r (view_of pathname)

pub home-shown :
    (first : Text) (id : RoleId) → own_guard (roles first id) (roles first id).home ≡ none
unfolding view_of guard is_forbidden roles
home-shown first hq = refl
home-shown first _ = refl

abbrev pub all_items : List (String × List Item) → List Item
all_items [] = []
all_items ((g, its) ∷ gs) = its ++ all_items gs

items-shown :
    (first : Text) (id : RoleId) (view : Text) (n m : ℕ)
    → All
        (λ i. own_guard (roles first id) i.target ≡ none)
        (all_items (groups (roles first id) (roles first id) view n m menu))
unfolding view_of guard is_forbidden roles groups
items-shown first hq view n m = ground arith
items-shown first _ view n m = ground arith

-- The state after the effect of the shell: the current role is the one that the shell works with.
unfoldable pub IsSynced : Text → Text → RoleState → Type 0
IsSynced first account s = cur_role first account s.role_id ≡ s.role_id

pub sync_role-IsSynced :
    (first account : Text) (s : RoleState) → IsSynced first account (sync_role first account s)
unfolding IsSynced
sync_role-IsSynced first account s =
    rw (sync_role-role_id first account s) (cur_role_idem first account s.role_id)

pub cur_role-IsSynced :
    (first account : Text) (s : RoleState)
    → cur_role first account s.role_id ≡ s.role_id
    → IsSynced first account s
unfolding IsSynced
cur_role-IsSynced first account s h = h

-- The frame for the current role.
abbrev pub own_frame : Text → Text → RoleState → Text → Frame
own_frame first account s pathname =
    let r = roles first s.role_id in frame_of first account r r (view_of pathname) s

pub shell-own :
    (first account : Text) (a : ℕ) (tok pathname : Text) (s : RoleState)
    → IsSynced first account s
    → shell first account (some (a ∷ tok)) s pathname
      ≡ or_redirect
          (own_guard (roles first s.role_id) pathname)
          (own_frame first account s pathname)
unfolding shell IsSynced
shell-own first account a tok pathname s h = rw h refl

some-inj : {a b : Text} → some a ≡ some b → a ≡ b
some-inj {a} p = ap (λ (o : Option Text). elim o [ none ↦ a | some x ↦ x ]) p

none-some : {a : Text} → none ≢ some a
none-some p = cc

pub guard-home : (r : Role) (view to : Text) → guard r r view ≡ some to → to ≡ r.home
unfolding guard
guard-home r view to h = elim (Bool-cases (is_forbidden r r view)) [
  | inl e ↦ some-inj (sym (rw e at h))
  | inr e ↦ absurd (none-some (rw e at h))
]

frame-redirect : {f : Frame} {to : Text} → frame f ≢ redirect to
frame-redirect p = cc

redirect-inj : {to to' : Text} → redirect to ≡ redirect to' → to ≡ to'
redirect-inj {to} p = ap (λ (x : Screen). elim x [ redirect t ↦ t | frame f ↦ to ]) p

frame-inj : {f g : Frame} → frame f ≡ frame g → f ≡ g
frame-inj {f} p = ap (λ (x : Screen). elim x [ redirect t ↦ f | frame h ↦ h ]) p

-- Signed in, and once the effect of the shell has run, a redirect leads to a page that is shown: the
-- shell does not send the browser round in circles.
pub redirect_ends :
    (first account : Text) (a : ℕ) (tok pathname : Text) (s : RoleState) (to : Text)
    → shell first account (some (a ∷ tok)) (sync_role first account s) pathname ≡ redirect to
    → (f : Frame) × (shell first account (some (a ∷ tok)) (sync_role first account s) to ≡ frame f)
redirect_ends first account a tok pathname s to h =
    let t = sync_role first account s in
    let synced = sync_role-IsSynced first account s in
    let r = roles first t.role_id in
    let drawn = sym (shell-own first account a tok pathname t synced) ∙ h in
    elim (Option-cases (own_guard r pathname)) [
      | inl e ↦ absurd (frame-redirect (rw e at drawn))
      | inr (home, e) ↦
          let same : to ≡ r.home =
            sym (redirect-inj (rw e at drawn)) ∙ guard-home r (view_of pathname) home e in
          (
            own_frame first account t to,
            shell-own first account a tok to t synced ∙ rw (same, home-shown first t.role_id) refl,
          )
    ]

-- A frame that is drawn is that of the current role.
pub frame-own :
    (first account : Text) (a : ℕ) (tok pathname : Text) (s : RoleState) (f : Frame)
    → IsSynced first account s
    → shell first account (some (a ∷ tok)) s pathname ≡ frame f
    → own_frame first account s pathname ≡ f
frame-own first account a tok pathname s f synced h =
    let drawn = sym (shell-own first account a tok pathname s synced) ∙ h in
    elim (Option-cases (own_guard (roles first s.role_id) pathname)) [
      | inl e ↦ frame-inj (rw e at drawn)
      | inr (home, e) ↦ absurd (frame-redirect (sym (rw e at drawn)))
    ]

-- Signed in, and once the effect of the shell has run, every button of the side bar of a page that is
-- shown leads to a page that is shown.
pub targets_shown :
    (first account : Text) (a : ℕ) (tok pathname : Text) (s : RoleState) (f : Frame) (i : Item)
    → shell first account (some (a ∷ tok)) (sync_role first account s) pathname ≡ frame f
    → In i (all_items f.side_bar)
    → (g : Frame) × (shell first account (some (a ∷ tok)) (sync_role first account s) i.target
        ≡ frame g)
unfolding frame_of
targets_shown first account a tok pathname s f i h m =
    let t = sync_role first account s in
    let synced = sync_role-IsSynced first account s in
    let mine = rw (← frame-own first account a tok pathname t f synced h) at m in
    let open_ = All-In _ _ (items-shown first t.role_id (view_of pathname) _ _) mine in
    (
      own_frame first account t i.target,
      shell-own first account a tok i.target t synced ∙ rw open_ refl,
    )
