-- ===== src/Api.antt =====
-- `admin/src/api.ts`: the storage of the account, `request` and the calls. `fetch` is the host's: its
-- answer to a method, a path, headers and a body, or none where it rejects. A response has its status
-- and, where its body is JSON, the value and its field `error`. `encode` is `URLSearchParams`. A body
-- is the object that is made into JSON, by its keys.
pub mod Types
pub mod SignOut
mod Tests
use wachen.Base.{
  ℕ, Bool, true, false, not, ◌&&◌, List, [], ◌∷◌, ◌++◌, Option, none, some, or_else, Text, utf16,
  text_Eq, nat_eq, ◌==◌, if◌then◌else◌, leb, put, starts_with,
}
use wachen.Roles.Scope.{truthy}
use wachen.Api.Types.{CaseFilters}

-- What `localStorage` has under the three keys; it has room for them.
pub record Storage : Type 0 where
  pub token : Option Text
  pub name : Option Text
  pub role : Option Text

-- `auth.backendRole()`
abbrev pub backend_role : Storage → Text
backend_role s = or_else s.role []

-- `auth.save`
unfoldable pub save : Text → Text → Text → Storage → Storage
save token name role s = record { token = some token; name = some name; role = some role }

-- `auth.clear`
unfoldable pub clear : Storage → Storage
clear s = record { token = none; name = none; role = none }

pub record Browser : Type 0 where
  pub storage : Storage
  pub location : Text

pub record Response (A : Type 0) : Type 0 where
  pub status : ℕ
  pub json : Option (A × Option Text)

pub data Message : Type 0 where
  unauthorized host : Message
  said : Text → Message
  http : ℕ → Message

-- How the promise ends; `empty` is the object `{}` that stands for a body that is no JSON.
pub data Outcome (A : Type 0) : Type 0 where
  value : A → Outcome A
  empty : Outcome A
  failed : Message → Outcome A

abbrev pub Headers : Type 0
Headers = List (Text × Text)

abbrev spread : Headers → Headers → Headers
spread base [] = base
spread base ((k, v) ∷ kvs) = spread (put k v base) kvs

abbrev with_token : Option Text → Headers → Headers
with_token none h = h
with_token (some t) h = put (utf16 "Authorization") (utf16 "Bearer " ++ t) h

unfoldable pub headers : Option Text → Headers → Headers
headers token init =
    with_token (truthy token) (spread ((utf16 "Content-Type", utf16 "application/json") ∷ []) init)

-- `data.error ?? HTTP …`
abbrev pub message : {A : Type 0} → ℕ → Option (A × Option Text) → Message
message status (some (a, some e)) = said e
message status _ = http status

abbrev pub value_of : {A : Type 0} → Option (A × Option Text) → Outcome A
value_of none = empty
value_of (some d) = value d.0

abbrev pub ended : {A : Type 0} → Text → Option (Response A) → Browser → Outcome A × Browser
ended path none b = (failed host, b)
ended path (some r) b =
    if r.status == 401 && not (starts_with path (utf16 "/login"))
    then (failed unauthorized, record { storage = clear b.storage; location = utf16 "/login" })
    else if leb 200 r.status && leb r.status 299
    then (value_of r.json, b)
    else (failed (message r.status r.json), b)

pub data Call : Type 0 where
  login : Text → Text → Call
  list_cases : CaseFilters → Call
  facets pipeline approvals : Call
  case_detail approve_reply : Text → Call
  update_status create_reply reject_reply : Text → Text → Call

abbrev pub post : Option Text
post = some (utf16 "POST")

-- `init.method`; without one it is a GET.
unfoldable pub method : Call → Option Text
method (login email password) = post
method (update_status id status) = some (utf16 "PATCH")
method (create_reply id content) = post
method (approve_reply id) = post
method (reject_reply id reason) = post
method _ = none

unfoldable pub body : Call → List (Text × Text)
body (login email password) = (utf16 "email", email) ∷ (utf16 "password", password) ∷ []
body (update_status id status) = (utf16 "status", status) ∷ []
body (create_reply id content) = (utf16 "content", content) ∷ []
body (reject_reply id reason) = (utf16 "reason", reason) ∷ []
body _ = []

unfoldable pub path : (CaseFilters → Text) → Call → Text
path encode (login email password) = utf16 "/login"
path encode (list_cases f) = utf16 "/cases?" ++ encode f
path encode facets = utf16 "/facets"
path encode pipeline = utf16 "/pipeline"
path encode approvals = utf16 "/approvals"
path encode (case_detail id) = utf16 "/cases/" ++ id
path encode (approve_reply id) = utf16 "/replies/" ++ (id ++ utf16 "/approve")
path encode (update_status id status) = utf16 "/cases/" ++ (id ++ utf16 "/status")
path encode (create_reply id content) = utf16 "/cases/" ++ (id ++ utf16 "/replies")
path encode (reject_reply id reason) = utf16 "/replies/" ++ (id ++ utf16 "/reject")

module _ {A : Type 0}
    (fetch : Option Text → Text → Headers → List (Text × Text) → Option (Response A)) where
  unfoldable pub request : Option Text → Text → List (Text × Text) → Browser → Outcome A × Browser
  unfolding headers clear
  request verb path fields b =
      ended path (fetch verb (utf16 "/api/v1" ++ path) (headers b.storage.token []) fields) b

  unfoldable pub api : (CaseFilters → Text) → Call → Browser → Outcome A × Browser
  unfolding request method path body
  api encode c b = request (method c) (path encode c) (body c) b
