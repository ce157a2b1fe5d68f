-- ===== src/Roles/Session.antt =====
-- The current role and the roles of the account, `admin/src/lib/roles.ts`, and the clamping of the
-- role in `Shell` of `admin/src/App.tsx`. A text in `localStorage` that is the name of a member of
-- every object, such as `toString`, is read as a name that `ROLES` does not have.
use wachen.Base.{
  Bool, true, false, List, [], ◌∷◌, Option, none, some, Text, utf16, text_Eq, ◌==◌, if◌then◌else◌,
  filter, any, or_else, get, text_eq,
}
use wachen.Db.{App, bump}
use wachen.Roles.Table.{RoleId, hq, tk, roles}

unfoldable pub role_name : RoleId → Text
role_name hq = utf16 "hq"
role_name RoleId.region = utf16 "region"
role_name RoleId.store = utf16 "store"
role_name RoleId.cs = utf16 "cs"
role_name RoleId.pr = utf16 "pr"
role_name tk = utf16 "tk"

-- `Object.keys(ROLES)`
abbrev pub role_ids : List RoleId
role_ids = hq ∷ RoleId.region ∷ RoleId.store ∷ RoleId.cs ∷ RoleId.pr ∷ tk ∷ []

-- The initial `roleId`, from what `localStorage` has under `ROLE_KEY`.
unfoldable pub load_role : Option Text → RoleId
unfolding role_name
load_role none = hq
load_role (some name) =
    if role_name RoleId.region == name
    then RoleId.region
    else if role_name RoleId.store == name
    then RoleId.store
    else if role_name RoleId.cs == name
    then RoleId.cs
    else if role_name RoleId.pr == name
    then RoleId.pr
    else if role_name tk == name
    then tk
    else hq

-- BACKEND_ROLE
abbrev pub backend_role : List (Text × RoleId)
backend_role =
    (utf16 "admin", hq)
    ∷ (utf16 "tsannkuen", tk)
    ∷ (utf16 "hq_service", RoleId.cs)
    ∷ (utf16 "pr_legal", RoleId.pr)
    ∷ (utf16 "store_manager", RoleId.store)
    ∷ (utf16 "district_manager", RoleId.region)
    ∷ []

-- loginRoleId, of what `auth.backendRole()` returns.
unfoldable pub login_role_id : Text → RoleId
login_role_id role = or_else (get role backend_role) hq

-- `===` of two values of `string | undefined`.
abbrev pub brand_eq : Option Text → Option Text → Bool
brand_eq none none = true
brand_eq (some a) (some b) = text_eq a b
brand_eq _ _ = false

-- allowedRoleIds
unfoldable pub allowed_role_ids : Text → Text → List RoleId
unfolding login_role_id roles
allowed_role_ids first role =
    filter (λ id. brand_eq (roles first id).brand (roles first (login_role_id role)).brand) role_ids

abbrev pub role_id_eq : RoleId → RoleId → Bool
role_id_eq hq hq = true
role_id_eq RoleId.region RoleId.region = true
role_id_eq RoleId.store RoleId.store = true
role_id_eq RoleId.cs RoleId.cs = true
role_id_eq RoleId.pr RoleId.pr = true
role_id_eq tk tk = true
role_id_eq _ _ = false

-- `curRole` of `Shell`.
unfoldable pub cur_role : Text → Text → RoleId → RoleId
unfolding allowed_role_ids login_role_id
cur_role first role id =
    if any (λ a. role_id_eq a id) (allowed_role_ids first role) then id else login_role_id role

-- The module's state, beside that of the data layer.
pub record RoleState : Type 0 where
  pub app : App
  pub role_id : RoleId
  pub role_key : Option Text

-- setRole; the flag says that `setItem` threw, which nothing here catches.
unfoldable pub set_role : RoleId → RoleState → RoleState × Bool
unfolding bump role_name
set_role id s =
    if s.app.storage_full
    then (record s { role_id = id }, true)
    else (record { app = bump s.app; role_id = id; role_key = some (role_name id) }, false)

-- The effect of `Shell`: `if (getRoleId() !== curRole) setRole(curRole)`. The flag says that it threw, in
-- which case React, without an error boundary, draws nothing any more.
unfoldable pub sync_effect : Text → Text → RoleState → RoleState × Bool
unfolding cur_role set_role
sync_effect first account s =
    let cur = cur_role first account s.role_id in
    if role_id_eq s.role_id cur then (s, false) else set_role cur s

-- The state that the effect leaves, whether or not it threw.
unfoldable pub sync_role : Text → Text → RoleState → RoleState
unfolding sync_effect
sync_role first account s = (sync_effect first account s).0
