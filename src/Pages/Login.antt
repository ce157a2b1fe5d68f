-- ===== src/Pages/Login.antt =====
-- `submit` of `admin/src/pages/Login.tsx`. The call of the backend enters as the way that its promise
-- ended; a body that is no JSON gives `undefined` for each part, which the storage keeps as that word.
-- A storage that is full throws at the first write, before anything has changed. `text_of` is
-- `ex.message`, and `full` the message of that error.
pub mod SignIn
pub mod Form
use wachen.Base.{Bool, true, false, [], Option, Text, utf16, if◌then◌else◌}
use wachen.Roles.Table.{Role, roles}
use wachen.Roles.Session.{RoleState, login_role_id, set_role}
use wachen.Api.{Browser, Storage, Outcome, value, empty, failed, Message, save, backend_role}

-- What the call brings: token, name and role.
pub record Account : Type 0 where
  pub token : Text
  pub name : Text
  pub role : Text

pub record LoginState : Type 0 where
  pub browser : Browser
  pub session : RoleState
  pub err : Text
  pub busy : Bool

abbrev pub no_account : Account
no_account = record {
  token = utf16 "undefined";
  name = utf16 "undefined";
  role = utf16 "undefined";
}

module _ (first : Text) (text_of : Message → Text) (full : Text) where
  -- The part of the `try` after the call.
  unfoldable pub enter : Account → LoginState → LoginState
  unfolding save login_role_id set_role roles
  enter a s =
      if s.session.app.storage_full
      then record s { err = full; busy = false }
      else let storage = save a.token a.name a.role s.browser.storage in
        let rid = login_role_id (backend_role storage) in
        record {
          browser = record { storage = storage; location = (roles first rid).home };
          session = (set_role rid s.session).0;
          err = [];
          busy = false;
        }

  unfoldable pub submit : Outcome Account → LoginState → LoginState
  unfolding enter
  submit (value a) s = enter a s
  submit empty s = enter no_account s
  submit (failed m) s = record s { err = text_of m; busy = false }
