-- ===== src/Pages/Login/SignIn.antt =====
-- Where a login leads.
use wachen.Base.{◌≡◌, refl, ◌∙◌, ℕ, false, ◌∷◌, any, some, Text, Bool-cases, inl, inr}
use wachen.Roles.Table.{roles}
use wachen.Roles.Session.{
  RoleState, login_role_id, cur_role, allowed_role_ids, role_id_eq, set_role,
}
use wachen.Shell.{Frame, frame, shell}
use wachen.Shell.Targets.{IsSynced, shell-own, home-shown, own_frame}
use wachen.Api.{Message, value, backend_role, save}
use wachen.Pages.Login.{LoginState, enter, submit}

login-IsSynced :
    (first account : Text) → cur_role first account (login_role_id account) ≡ login_role_id account
unfolding cur_role
login-IsSynced first account =
    elim (Bool-cases
      (any (λ a. role_id_eq a (login_role_id account)) (allowed_role_ids first account))) [
        | inl e ↦ rw e refl
        | inr e ↦ rw e refl
      ]

home-frame :
    (first account : Text) (a : ℕ) (tok : Text) (t : RoleState)
    → t.role_id ≡ login_role_id account
    → (f : Frame) × (shell first account
          (some (a ∷ tok))
          t
          (roles first (login_role_id account)).home
        ≡ frame f)
unfolding IsSynced
home-frame first account a tok t e =
    let home = (roles first (login_role_id account)).home in
    let synced : IsSynced first account t = rw e (login-IsSynced first account) in
    let here = home-shown first (login_role_id account) in
    (
      own_frame first account t home,
      shell-own first account a tok home t synced ∙ rw (e, here) refl,
    )

-- A login that the backend accepts, with a token and room in the storage, leads to the home of the
-- account's role, and the shell shows that page. The role that was current before is gone: from the
-- first drawing on the current role is the one that the shell works with.
pub submit-frame :
    (first : Text) (text_of : Message → Text) (full : Text) (a : ℕ) (tok name role : Text)
    (s : LoginState)
    → s.session.app.storage_full ≡ false
    → let t =
        submit first text_of full
          (value (record { token = a ∷ tok; name = name; role = role }))
          s in
      let account = backend_role t.browser.storage in
      (t.session.role_id ≡ login_role_id role)
      × (cur_role first account t.session.role_id ≡ t.session.role_id)
      × (t.browser.location ≡ (roles first (login_role_id role)).home)
      × ((f : Frame) × (shell first account t.browser.storage.token t.session t.browser.location
            ≡ frame f))
unfolding submit enter save set_role IsSynced
submit-frame first text_of full a tok name role s room =
    rw room (refl, login-IsSynced first role, refl, home-frame first role a tok _ refl)
