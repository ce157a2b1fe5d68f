-- ===== src/Mobile/Client.antt =====
-- `api` of `mobile/src/api/client.ts` against a server. `fetch` is the host's: what it answers to a
-- path and headers, or none where it rejects. A response has its status, its text, and its body where
-- that is JSON.
pub mod Ends
use wachen.Base.{
  ℕ, Bool, true, false, ◌&&◌, List, [], ◌∷◌, ◌++◌, Option, none, some, Text, utf16, text_Eq, nat_eq,
  ◌==◌, if◌then◌else◌, leb, put,
}
use wachen.Roles.Scope.{truthy}
use wachen.Mobile.Session.{SessionState, sign_out}

pub record Response (A : Type 0) : Type 0 where
  pub status : ℕ
  pub text : Text
  pub json : Option A

-- `res.ok`
abbrev pub is_ok : ℕ → Bool
is_ok status = leb 200 status && leb status 299

-- How the promise ends: with a value, with an `ApiError`, or with an error of the host.
pub data Outcome (A : Type 0) : Type 0 where
  value : A → Outcome A
  api_error : ℕ → Text → Outcome A
  host_error : Outcome A

-- An object, by its keys.
abbrev pub Headers : Type 0
Headers = List (Text × Text)

abbrev pub spread : Headers → Headers → Headers
spread base [] = base
spread base ((k, v) ∷ kvs) = spread (put k v base) kvs

-- `...(token ? { Authorization: `Bearer ${token}` } : {})`
abbrev pub authorization : Option Text → Headers
authorization none = []
authorization (some t) = (utf16 "Authorization", utf16 "Bearer " ++ t) ∷ []

unfoldable pub headers : Option Text → Headers → Headers
headers token init =
    spread
      (spread ((utf16 "Content-Type", utf16 "application/json") ∷ [])
        (authorization (truthy token)))
      init

-- `await res.json()`
abbrev pub parsed : {A : Type 0} → Option A → Outcome A
parsed none = host_error
parsed (some a) = value a

abbrev pub answered : {A : Type 0} → Response A → SessionState → Outcome A × SessionState
answered r s =
    if r.status == 401
    then (api_error 401 (utf16 "unauthorized"), sign_out s)
    else if is_ok r.status
    then (parsed r.json, s)
    else (api_error r.status r.text, s)

abbrev pub ended : {A : Type 0} → Option (Response A) → SessionState → Outcome A × SessionState
ended none s = (host_error, s)
ended (some r) s = answered r s

module _ {A : Type 0} (fetch : Text → Headers → Option (Response A)) (base : Text) where
  unfoldable pub api : Text → Headers → SessionState → Outcome A × SessionState
  unfolding headers sign_out
  api path init s = ended (fetch (base ++ path) (headers s.token init)) s
