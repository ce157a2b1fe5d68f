-- ===== src/Api/Tests.antt =====
-- Runs of the API client of the admin client.
use wachen.Base.{◌≡◌, refl, false, List, [], Option, none, some, Text, utf16, text_Eq}
use wachen.Roles.Session.{RoleState}
use wachen.Shell.{redirect, shell}
use wachen.Api.{Browser, Response, Headers, facets, api, backend_role}
use wachen.Api.Types.{CaseFilters}
use wachen.Api.SignOut.{refused-shell}
use wachen.Db.{absent, start}
use wachen.Roles.Table.{hq}
use wachen.Samples.{raws}

-- A backend whose tokens have all run out.
abbrev expired : Option Text → Text → Headers → List (Text × Text) → Option (Response Text)
expired verb path hs fields =
    some (record { status = 401; json = some (path, some (utf16 "expired")) })

abbrev no_query : CaseFilters → Text
no_query f = []

abbrev browser : Browser
browser = record {
  storage = record {
    token = some (utf16 "t");
    name = some (utf16 "Lin");
    role = some (utf16 "admin");
  };
  location = utf16 "/cases";
}

abbrev role_state : RoleState
role_state = record { app = start absent false raws []; role_id = hq; role_key = none }

refused-shell_example :
    let after = (api expired no_query facets browser).1 in
    shell [] (backend_role after.storage) after.storage.token role_state (utf16 "/cases")
    ≡ redirect (utf16 "/login")
refused-shell_example =
    refused-shell expired no_query facets browser [] role_state (utf16 "/cases") refl refl
