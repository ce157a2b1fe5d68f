-- ===== src/Mobile/Mock/Routes.antt =====
-- What the mock answers to the requests of the app.
use wachen.Base.{
  ◌≡◌, refl, ◌∙◌, ◌≢◌, false, List, [], ◌∷◌, none, some, Text, utf16, text_eq, includes, nat_eq,
  if◌then◌else◌, ==_refl, text_Eq,
}
use mathlib.Core.Option
use wachen.Base.Fields.{fields-whole, fields-append}
use wachen.Base.LastBy.{last_by-update}
use wachen.Domain.{CaseStatus}
use wachen.Mobile.Domain.{Case}
use wachen.Mobile.Mock.{
  by_id, update_by_id, patched, one_case, mock_fetch, detail_path, status_path,
}

-- An id that is one segment of a path: not empty, and with no slash.
abbrev pub IsSegment : Text → Type 0
IsSegment id = (id ≢ []) × (includes b'/' id ≡ false)

patched-id : (to : CaseStatus) (c : Case) → (patched to c).id ≡ c.id
unfolding patched
patched-id to c = refl

pub by_id-update :
    (id j : Text) (to : CaseStatus) (cs : List Case)
    → by_id j (update_by_id id (patched to) cs)
      ≡ (if text_eq id j then Option.map (patched to) (by_id j cs) else by_id j cs)
unfolding by_id update_by_id
by_id-update id j to cs = last_by-update (λ c. c.id) id j (patched to) (patched-id to) cs

pub mock_fetch-detail :
    (id : Text) (status : CaseStatus) (cs : List Case)
    → IsSegment id
    → mock_fetch none (detail_path id) status cs ≡ (some (one_case (by_id id cs)), cs)
unfolding mock_fetch
mock_fetch-detail [] status cs h = absurd (h.0 refl)
mock_fetch-detail (c ∷ id) status cs h = rw (fields-whole b'/' (c ∷ id) h.1) refl

pub mock_fetch-status :
    (id : Text) (to : CaseStatus) (cs : List Case)
    → IsSegment id
    → mock_fetch (some (utf16 "PATCH")) (status_path id) to cs ≡ (
      some (one_case (by_id id (update_by_id id (patched to) cs))),
      update_by_id id (patched to) cs,
    )
unfolding mock_fetch
mock_fetch-status [] to cs h = absurd (h.0 refl)
mock_fetch-status (c ∷ id) to cs h = rw (fields-append b'/' (c ∷ id) (utf16 "status") h.1) refl

-- A status change through the mock, followed by a request for any case by its id: the named case
-- comes back with the new status and its reopened count to match, as the answer to the change
-- itself already has it, and every other id brings what it brought before.
patch_then_detail :
    (id j : Text) (to status : CaseStatus) (cs : List Case)
    → IsSegment id
    → IsSegment j
    → let p = mock_fetch (some (utf16 "PATCH")) (status_path id) to cs in
      (p.0 ≡ some (one_case (Option.map (patched to) (by_id id cs))))
      × ((mock_fetch none (detail_path j) status p.1).0
          ≡ some (
              one_case (if text_eq id j then Option.map (patched to) (by_id j cs) else by_id j cs)))
patch_then_detail id j to status cs h k =
    let after = update_by_id id (patched to) cs in
    let own : by_id id after ≡ Option.map (patched to) (by_id id cs) =
      by_id-update id id to cs ∙ rw (==_refl id) refl in
    (
      rw (mock_fetch-status id to cs h, own) refl,
      rw (mock_fetch-status id to cs h, mock_fetch-detail j status after k, by_id-update id j to cs)
          refl,
    )
