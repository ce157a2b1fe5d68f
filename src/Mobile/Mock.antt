-- ===== src/Mobile/Mock.antt =====
-- `mobile/src/api/mock.ts`: the backend that the app carries with it. The pathname is that of
-- `new URL(path, 'http://mock')`. Of a body the mock reads the status only, and the app sends one with
-- every PATCH.
pub mod Routes
use wachen.Base.{
  ℕ, ◌+◌, Bool, true, false, not, ◌&&◌, ◌||◌, List, [], ◌∷◌, ◌++◌, map, Option, none, some, or_else,
  Text, utf16, text_Eq, ◌==◌, if◌then◌else◌, get_elem?, length, is_empty, is_some,
}
use wachen.Base.Fields.{parts}
use wachen.Base.LastBy.{last_by, update_last_by}
use wachen.Domain.{CaseStatus, open_, done, closed, status_Eq}
use wachen.SeedStatus.{seed_status}
use wachen.Mobile.Domain.{Case}

-- `{ ...c, cstatus: seedStatus(c) }`
unfoldable pub boot_case : Case → Case
unfolding seed_status
boot_case c = record c { cstatus = seed_status c.id c.risk_level }

-- `byId.get(id)`: of the cases with that id a `Map` keeps the last, the object that `cases` holds.
unfoldable pub by_id : Text → List Case → Option Case
unfolding last_by
by_id id cs = last_by (λ c. c.id) id cs

unfoldable pub update_by_id : Text → (Case → Case) → List Case → List Case
unfolding update_last_by
update_by_id id f cs = update_last_by (λ c. c.id) id f cs

-- What a PATCH does to the case that it names.
unfoldable pub patched : CaseStatus → Case → Case
patched to c = record c {
  reopened_count =
      if to == open_ && (c.cstatus == closed || c.cstatus == done)
      then c.reopened_count + 1
      else c.reopened_count;
  cstatus = to;
}

pub data Answer : Type 0 where
  token : Text → Answer
  case_list : List Case → ℕ → Answer
  one_case : Option Case → Answer
  facets : Answer
  no_recent : Answer

-- `parts[i] === s`, with what an array has past its end.
abbrev pub part_is : Option Text → Text → Bool
part_is none s = false
part_is (some p) s = p == s

-- mockFetch: the answer, or none where it throws, and the cases afterwards.
unfoldable pub mock_fetch : Option Text → Text → CaseStatus → List Case → Option Answer × List Case
unfolding by_id update_by_id patched
mock_fetch init_method pathname status cases =
    let method = or_else init_method (utf16 "GET") in
    let ps = parts b'/' pathname in
    let id = or_else (get_elem? ps 3) [] in
    if method == utf16 "POST" && pathname == utf16 "/api/v1/login"
    then (some (token (utf16 "mock-token")), cases)
    else if method == utf16 "GET" && pathname == utf16 "/api/v1/cases"
    then (some (case_list cases (length cases)), cases)
    else if method == utf16 "GET"
        && (part_is (get_elem? ps 2) (utf16 "cases") && is_some (get_elem? ps 3))
    then (some (one_case (by_id id cases)), cases)
    else if method == utf16 "PATCH"
        && (part_is (get_elem? ps 2) (utf16 "cases") && part_is (get_elem? ps 4) (utf16 "status"))
    then (let after = update_by_id id (patched status) cases in
        (some (one_case (by_id id after)), after))
    else if method == utf16 "GET" && pathname == utf16 "/api/v1/facets"
    then (some facets, cases)
    else if method == utf16 "GET" && pathname == utf16 "/api/v1/pipeline"
    then (some no_recent, cases)
    else (none, cases)

-- The paths that `api/queries.ts` asks for.
abbrev pub detail_path : Text → Text
detail_path id = utf16 "/api/v1/cases/" ++ id

abbrev pub status_path : Text → Text
status_path id = utf16 "/api/v1/cases/" ++ (id ++ utf16 "/status")
