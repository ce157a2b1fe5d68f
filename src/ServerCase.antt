-- ===== src/ServerCase.antt =====
-- The cases of the backend, as the admin client sees them: `ACTIONS` of
-- `admin/src/pages/CaseDetail.tsx`, and `validTransitions` of `backend/internal/store/api.go`, which
-- it follows.
pub mod Agreement
pub mod Backend
mod Tests
use wachen.Base.{String, Bool, true, false, List, [], ◌∷◌, Option, none, some}
use wachen.Domain.{CaseStatus}

-- The statuses of the backend's cases, `CaseSummary.status`.
pub data ServerStatus : Type 0 where
  open_ in_progress resolved closed : ServerStatus

-- ACTIONS
unfoldable pub actions : ServerStatus → List (ServerStatus × String)
actions open_ = (in_progress, "開始處理") ∷ (resolved, "標記解決") ∷ []
actions in_progress = (resolved, "標記解決") ∷ (open_, "退回待處理") ∷ []
actions resolved = (closed, "結案") ∷ (in_progress, "重新處理") ∷ []
actions closed = []

-- validTransitions of `backend/internal/store/api.go`
unfoldable pub valid_transitions : ServerStatus → ServerStatus → Bool
valid_transitions open_ in_progress = true
valid_transitions open_ resolved = true
valid_transitions in_progress resolved = true
valid_transitions in_progress open_ = true
valid_transitions resolved closed = true
valid_transitions resolved in_progress = true
valid_transitions _ _ = false

-- The name that a status of the mobile client has on the wire, where the backend knows it.
unfoldable pub on_server : CaseStatus → Option ServerStatus
on_server CaseStatus.open_ = some open_
on_server CaseStatus.in_progress = some in_progress
on_server CaseStatus.closed = some closed
on_server _ = none

abbrev pub status_is : ServerStatus → ServerStatus → Bool
status_is open_ open_ = true
status_is in_progress in_progress = true
status_is resolved resolved = true
status_is closed closed = true
status_is _ _ = false

-- What the backend answers to the status change of a case of the mobile client: it refuses a status
-- that it does not know.
unfoldable pub patch_accepted : CaseStatus → CaseStatus → Bool
unfolding on_server valid_transitions
patch_accepted from to = elim (on_server from) [
  | none ↦ false
  | some s ↦ elim (on_server to) [ none ↦ false | some t ↦ valid_transitions s t ]
]
