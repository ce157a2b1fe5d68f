-- ===== src/Mobile/Queries.antt =====
-- The requests of the hooks of `mobile/src/api/queries.ts`, and what the mock of `mobile/src/api/mock.ts`
-- answers to them. Of a body the mock reads the status only; `default` stands for the status of a
-- body that has none, which no route reads. `pathname` is that of `new URL(path, 'http://mock')`, which
-- belongs to the host: it resolves dots and cuts off queries, but keeps most paths as they are.
pub mod Typed
pub mod Refinement
use wachen.Base.{◌≡◌, List, [], ◌∷◌, ◌++◌, Option, none, some, Text, utf16}
use wachen.Domain.{CaseStatus}
use wachen.Mobile.Domain.{Case}
use wachen.Mobile.Mock.{
  Answer, token, case_list, one_case, facets, mock_fetch, by_id, detail_path, status_path,
}
use wachen.Mobile.Mock.Routes.{IsSegment}
use wachen.Mobile.Optimistic.{Cache}

pub data Request : Type 0 where
  login all_cases all_facets : Request
  detail : Text → Request
  update_status : Text → CaseStatus → Request
  create_reply : Text → Text → Request

abbrev pub replies_path : Text → Text
replies_path id = utf16 "/api/v1/cases/" ++ (id ++ utf16 "/replies")

-- The path of the call of `api`.
unfoldable pub path : Request → Text
path login = utf16 "/api/v1/login"
path all_cases = utf16 "/api/v1/cases"
path all_facets = utf16 "/api/v1/facets"
path (detail id) = detail_path id
path (update_status id to) = status_path id
path (create_reply id content) = replies_path id

-- `init?.method`
unfoldable pub method : Request → Option Text
method login = some (utf16 "POST")
method (update_status id to) = some (utf16 "PATCH")
method (create_reply id content) = some (utf16 "POST")
method _ = none

abbrev pub body_status : CaseStatus → Request → CaseStatus
body_status default (update_status id to) = to
body_status default _ = default

-- A request to the mock: the answer, or none where it throws, and the cases afterwards.
unfoldable pub send : (Text → Text) → CaseStatus → Request → List Case → Option Answer × List Case
unfolding path method
send pathname default r cs = mock_fetch (method r) (pathname (path r)) (body_status default r) cs

-- The answers to requests that are sent one after the other.
unfoldable pub answers :
    (Text → Text) → CaseStatus → List Request → List Case → List (Request × Option Answer)
answers pathname default [] cs = []
answers pathname default (r ∷ rs) cs =
    let p = send pathname default r cs in (r, p.0) ∷ answers pathname default rs p.1

-- The type that the hook gives to the answer. `api<Case>` promises a case, and `useCreateReply` gives
-- no type.
pub data HasType : Request → Answer → Type 0 where
  a_token : {t : Text} → HasType login (token t)
  the_cases : {cs : List Case} {n : wachen.Base.ℕ} → HasType all_cases (case_list cs n)
  the_facets : HasType all_facets facets
  a_case : {id : Text} {c : Case} → HasType (detail id) (one_case (some c))
  changed_case :
      {id : Text} {to : CaseStatus} {c : Case} → HasType (update_status id to) (one_case (some c))
  anything : {id content : Text} {a : Answer} → HasType (create_reply id content) a

-- `onSettled` of useCreateReply, which fetches the case anew.
unfoldable pub reply_settled : Text → Cache → Cache
reply_settled id q = record q { invalidated = q.invalidated ++ (utf16 "cases" ∷ id ∷ []) ∷ [] }
