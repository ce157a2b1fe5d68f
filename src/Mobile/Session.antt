-- ===== src/Mobile/Session.antt =====
-- `mobile/src/auth/session.ts`: the session that the app keeps.
use wachen.Base.{Option, none, some, Text}
use wachen.Mobile.Roles.{RoleId, hq, Role, roles}

pub record SessionState : Type 0 where
  pub token : Option Text
  pub role_id : RoleId
  pub role : Role

unfoldable pub initial : SessionState
unfolding roles
initial = record { token = none; role_id = hq; role = roles hq }

unfoldable pub sign_in : Text → RoleId → SessionState → SessionState
unfolding roles
sign_in token id s = record { token = some token; role_id = id; role = roles id }

unfoldable pub switch_role : RoleId → SessionState → SessionState
unfolding roles
switch_role id s = record s { role_id = id; role = roles id }

unfoldable pub sign_out : SessionState → SessionState
sign_out s = record s { token = none }
