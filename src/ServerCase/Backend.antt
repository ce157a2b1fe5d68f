-- ===== src/ServerCase/Backend.antt =====
-- A change of status on its way through the backend, and the click of the admin client that asks for it:
-- `auth` and `updateStatus` of `backend/cmd/api/main.go`, `UpdateCaseStatus` of
-- `backend/internal/service/cases.go` and of `backend/internal/store/api.go`. `verify` is the check of
-- a token by the JWT library, `fails` says that the database refuses a statement, and `now` is its
-- clock.
pub mod Laws
pub mod History
pub mod Closing
use wachen.Base.{
  ◌≡◌, ℕ, Bool, true, false, not, ◌&&◌, ◌||◌, List, [], ◌∷◌, ◌++◌, Option, none, some, or_else,
  Text, utf16, text_Eq, ◌==◌, ◌⊎◌, inl, inr, if◌then◌else◌, find, get, starts_with, drop, is_empty,
}
use wachen.ServerCase.{ServerStatus, open_, in_progress, resolved, closed, valid_transitions}
use wachen.Api.{Browser, Response, Outcome, Headers, headers, Call, update_status, body, path, api}
use wachen.Api.Types.{CaseFilters}

-- The columns of `cases` that a change of status reads and writes.
pub record Row : Type 0 where
  pub id : Text
  pub status : ServerStatus
  pub deleted : Bool
  pub responded_at : Option ℕ

unfoldable pub status_name : ServerStatus → Text
status_name open_ = utf16 "open"
status_name in_progress = utf16 "in_progress"
status_name resolved = utf16 "resolved"
status_name closed = utf16 "closed"

-- allowedStatuses: the status of that name, if there is one.
unfoldable pub of_name : Text → Option ServerStatus
of_name s =
    if s == utf16 "open"
    then some open_
    else if s == utf16 "in_progress"
    then some in_progress
    else if s == utf16 "resolved"
    then some resolved
    else if s == utf16 "closed"
    then some closed
    else none

pub data Failure : Type 0 where
  unknown_status invalid_transition other : Failure

abbrev pub is_live : Text → Row → Bool
is_live id r = r.id == id && not r.deleted

-- What the UPDATE sets: `responded_at = coalesce(responded_at, now())` for `resolved` only.
abbrev pub responded : ℕ → ServerStatus → Option ℕ → Option ℕ
responded now resolved at = some (or_else at now)
responded now _ at = at

unfoldable pub moved : ℕ → ServerStatus → Row → Row
moved now to r = record r { status = to; responded_at = responded now to r.responded_at }

-- `WHERE id = $1`: the id is the primary key, so it is the row that the query before has found.
unfoldable pub update_row : Text → (Row → Row) → List Row → List Row
update_row id f [] = []
update_row id f (r ∷ rs) = if is_live id r then f r ∷ rs else r ∷ update_row id f rs

-- The check of the row that the query has found, and the UPDATE; a query without a row is an error.
unfoldable pub change : ℕ → Text → ServerStatus → List Row → Option Row → Failure ⊎ List Row
unfolding update_row moved valid_transitions
change now id to rows none = inl other
change now id to rows (some r) =
    if valid_transitions r.status to
    then inr (update_row id (moved now to) rows)
    else inl invalid_transition

-- `UpdateCaseStatus` of the store: the rows after the transaction.
unfoldable pub store_update : Bool → ℕ → Text → ServerStatus → List Row → Failure ⊎ List Row
unfolding change
store_update fails now id to rows =
    if fails then inl other else change now id to rows (find (is_live id) rows)

-- That of the service, for the status of a name.
unfoldable pub service_update :
    Bool → ℕ → Text → Option ServerStatus → List Row → Failure ⊎ List Row
unfolding store_update
service_update fails now id none rows = inl unknown_status
service_update fails now id (some to) rows = store_update fails now id to rows

abbrev refused : ℕ → Text → Response (Option Text)
refused status error = record { status = status; json = some (none, some error) }

-- The switch of `updateStatus`: the response, whose value is the field `status`, and the rows.
abbrev pub answered : Text → List Row → Failure ⊎ List Row → Response (Option Text) × List Row
answered name rows (inl unknown_status) =
    (refused 400 (utf16 "status must be one of open/in_progress/resolved/closed"), rows)
answered name rows (inl invalid_transition) = (refused 422 (utf16 "此狀態不可轉換"), rows)
answered name rows (inl other) = (refused 500 (utf16 "internal"), rows)
answered name rows (inr after) = (record { status = 200; json = some (some name, none) }, after)

-- `strings.TrimPrefix(header, "Bearer ")`
abbrev pub trim_bearer : Text → Text
trim_bearer v = if starts_with v (utf16 "Bearer ") then drop 7 v else v

abbrev header : Headers → Text
header hs = or_else (get (utf16 "Authorization") hs) []

-- `raw`
abbrev pub bearer : Headers → Text
bearer hs = trim_bearer (header hs)

-- `raw == "" || raw == r.Header.Get("Authorization")`
abbrev pub is_missing : Headers → Bool
is_missing hs = is_empty (bearer hs) || bearer hs == header hs

-- `in.Status`
abbrev pub name_in : List (Text × Text) → Text
name_in fields = or_else (get (utf16 "status") fields) []

module _ (verify : Text → Bool) (fails : Bool) (now : ℕ) where
  -- `auth`, with the handler behind it.
  unfoldable pub serve :
      Text → Headers → List (Text × Text) → List Row → Response (Option Text) × List Row
  unfolding service_update of_name
  serve id hs fields rows =
      if is_missing hs
      then (refused 401 (utf16 "missing bearer token"), rows)
      else if verify (bearer hs)
      then answered (name_in fields) rows
          (service_update fails now id (of_name (name_in fields)) rows)
      else (refused 401 (utf16 "invalid token"), rows)

  -- A click on a button of `CaseDetailPage`: how the promise ends, the browser, and the rows.
  unfoldable pub press :
      (CaseFilters → Text)
      → Text
      → ServerStatus
      → Browser
      → List Row
      → (Outcome (Option Text) × Browser) × List Row
  unfolding serve api headers body status_name
  press encode id to b rows =
      let c = update_status id (status_name to) in
      (
        api (λ verb p hs fields. some (serve id hs fields rows).0) encode c b,
        (serve id (headers b.storage.token []) (body c) rows).1,
      )
