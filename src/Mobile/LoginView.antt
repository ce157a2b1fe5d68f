-- ===== src/Mobile/LoginView.antt =====
-- What the screen of the sign-in draws, `mobile/app/login.tsx`; `Screens.submit` is its button.
use wachen.Base.{Bool, List, map, Option, none, some, Text, String, if◌then◌else◌, true, false}
use wachen.Mobile.Roles.{RoleId, hq, region, cs, pr, roles}
use wachen.Mobile.Screens.{role_ids}

abbrev is_chosen : RoleId → RoleId → Bool
is_chosen hq hq = true
is_chosen region region = true
is_chosen RoleId.store RoleId.store = true
is_chosen cs cs = true
is_chosen pr pr = true
is_chosen _ _ = false

-- The mutation of `useLogin`.
pub record LoginState : Type 0 where
  pub email : Text
  pub role_id : RoleId
  pub is_pending : Bool
  pub is_error : Bool

pub record RolePill : Type 0 where
  pub id : RoleId
  pub title : String
  pub chosen : Bool

pub record LoginView : Type 0 where
  pub email : Text
  pub pills : List RolePill
  pub error : Option String
  pub label : String
  pub disabled : Bool

unfoldable pub pill : RoleId → RoleId → RolePill
unfolding roles
pill chosen id = record { id = id; title = (roles id).title; chosen = is_chosen chosen id }

unfoldable pub login_view : LoginState → LoginView
unfolding pill
login_view s = record {
  email = s.email;
  pills = map (pill s.role_id) role_ids;
  error = if s.is_error then some "登入失敗，請再試一次" else none;
  label = if s.is_pending then "登入中…" else "登入";
  disabled = s.is_pending;
}
