-- ===== src/Shell/Routing/Navigation.antt =====
-- Where the browser ends, with a token and without, and what the side bar leads to.
use wachen.Base.{
  ◌≡◌, refl, ◌∙◌, ap, false, ℕ, suc, List, [], ◌∷◌, Option, none, some, Text, utf16, ◌⊎◌, inl, inr,
  Option-cases,
}
use wachen.Roles.Table.{roles}
use wachen.Roles.Session.{RoleState, sync_role, sync_effect}
use wachen.Roles.Scope.{truthy}
use wachen.Shell.{Frame, redirect, frame, shell, view_of}
use wachen.Shell.Targets.{
  own_guard, own_frame, shell-own, sync_role-IsSynced, IsSynced, home-shown, guard-home,
}
use wachen.Shell.Routing.{
  Element, login_page, home, case_page, to_root, page, IsRouter, in_shell, draw, settle,
}
use wachen.Shell.Routing.Ends.{Lands, Leads, Shown, Settled, settles, login-IsAt, home-IsAt}

module _ (pick : List Text → Text → Option Text) (router : IsRouter pick)
    (first account : Text) where
  module _ (token : Option Text) (s : RoleState) where
    -- What `settles` asks of each element.
    abbrev On : Text → Text → Element → Type 0
    On landing p e =
        Shown pick router first account token s p e
        ⊎ Leads pick router first account token s p e landing
        ⊎ (e ≡ to_root)

  shell-signed_out :
      (token : Option Text) (s : RoleState) (p : Text)
      → truthy token ≡ none
      → shell first account token s p ≡ redirect (utf16 "/login")
  unfolding shell
  shell-signed_out none s p h = refl
  shell-signed_out (some []) s p h = refl
  shell-signed_out (some (a ∷ t)) s p h = cc

  signed_out :
      (token : Option Text) (s : RoleState)
      → truthy token ≡ none
      → (p : Text) (e : Element) → On token s (utf16 "/login") p e
  unfolding draw in_shell
  signed_out token s h p login_page = inl (refl, rw h refl)
  signed_out token s h p to_root = inr (inr refl)
  signed_out token s h p home = inr (inl (rw (shell-signed_out token s p h) refl))
  signed_out token s h p case_page = inr (inl (rw (shell-signed_out token s p h) refl))
  signed_out token s h p (page q) = inr (inl (rw (shell-signed_out token s p h) refl))

  module _ (a : ℕ) (tok : Text) (s : RoleState) (synced : IsSynced first account s) where
    screen-cases :
        (p : Text)
        → ((f : Frame) × (shell first account (some (a ∷ tok)) s p ≡ frame f))
          ⊎ (shell first account (some (a ∷ tok)) s p ≡ redirect (roles first s.role_id).home)
    screen-cases p =
        let r = roles first s.role_id in
        let drawn = shell-own first account a tok p s synced in
        elim (Option-cases (own_guard r p)) [
          | inl e ↦ inl (own_frame first account s p, drawn ∙ rw e refl)
          | inr (to, e) ↦ inr (drawn ∙ rw e (ap redirect (guard-home r (view_of p) to e)))
        ]

    signed_in : (p : Text) (e : Element) → On (some (a ∷ tok)) s (roles first s.role_id).home p e
    unfolding draw in_shell
    signed_in p login_page = inl (refl, tt)
    signed_in p to_root = inr (inr refl)
    signed_in p home = elim (screen-cases p) [
      | inl (f, h) ↦ inr (inl (rw h refl))
      | inr h ↦ inr (inl (rw h refl))
    ]
    signed_in p case_page = elim (screen-cases p) [
      | inl (f, h) ↦ inl (rw h refl, tt)
      | inr h ↦ inr (inl (rw h refl))
    ]
    signed_in p (page q) = elim (screen-cases p) [
      | inl (f, h) ↦ inl (rw h refl, tt)
      | inr h ↦ inr (inl (rw h refl))
    ]

    home-Shown :
        Shown pick router first account
          (some (a ∷ tok))
          s
          (roles first s.role_id).home
          (page (roles first s.role_id).home)
    unfolding draw in_shell
    home-Shown =
        let r = roles first s.role_id in
        let drawn = shell-own first account a tok r.home s synced in
        (rw (drawn, home-shown first s.role_id) refl, tt)

  ends :
      (token : Option Text) (s : RoleState)
      → IsSynced first account s
      → (n : ℕ) (p : Text) → Settled pick router first account token s (suc (suc (suc n))) p
  unfolding draw
  ends none s synced =
      settles pick router first account none s (utf16 "/login") login_page login-IsAt (refl, refl)
        (signed_out none s refl)
  ends (some []) s synced =
      settles pick router first account (some []) s (utf16 "/login") login_page login-IsAt
        (refl, refl) (signed_out (some []) s refl)
  ends (some (a ∷ tok)) s synced =
      let r = roles first s.role_id in
      settles pick router first account (some (a ∷ tok)) s r.home (page r.home)
        (home-IsAt first s.role_id) (home-Shown a tok s synced) (signed_in a tok s synced)

-- Once the effect of the shell has run and has not thrown, the browser settles after at most two
-- redirects, whatever is written into its address bar: signed out, at the page of the login; signed
-- in, at a page of the client.
pub navigation_ends :
    (pick : List Text → Text → Option Text) (first account : Text) (token : Option Text)
    (s : RoleState) (n : ℕ) (pathname : Text)
    → IsRouter pick
    → (sync_effect first account s).1 ≡ false
    → (r : Text × Element) × (settle pick first account token
          (sync_effect first account s).0
          (suc (suc (suc n)))
          pathname
        ≡ some r)
      × Lands (truthy token) r.1
unfolding sync_role
navigation_ends pick first account token s n pathname router done =
    ends pick router first account token (sync_role first account s)
      (sync_role-IsSynced first account s) n pathname
