-- ===== src/Mobile/Optimistic.antt =====
-- `useUpdateStatus` of `mobile/src/api/queries.ts`: what its callbacks do to the cache of the queries.
-- The cache is the data under `keys.cases` and under `keys.caseDetail(id)`, and the keys that were
-- invalidated, which the query client fetches anew.
pub mod Rollback
pub mod Confirmed
use wachen.Base.{
  Bool, true, false, List, [], ◌∷◌, ◌++◌, map, Option, none, some, Text, utf16, text_Eq, ◌==◌,
  if◌then◌else◌, get, put,
}
use wachen.Domain.{CaseStatus}
use wachen.Mobile.Domain.{Case}

pub record Cache : Type 0 where
  pub cases : Option (List Case)
  pub details : List (Text × Case)
  pub invalidated : List (List Text)

-- `{ ...c, cstatus: status }`
abbrev pub with_status : CaseStatus → Case → Case
with_status to c = record c { cstatus = to }

abbrev pub relabel : Text → CaseStatus → List Case → List Case
relabel id to cs = map (λ c. if c.id == id then with_status to c else c) cs

abbrev pub set_list : Text → CaseStatus → Option (List Case) → Option (List Case)
set_list id to none = none
set_list id to (some cs) = some (relabel id to cs)

-- `setQueryData` with an updater that gives `undefined` for `undefined` leaves the cache as it is.
abbrev pub set_detail : Text → CaseStatus → List (Text × Case) → List (Text × Case)
set_detail id to ds = elim (get id ds) [ none ↦ ds | some c ↦ put id (with_status to c) ds ]

-- onMutate: the new cache, and `prev`.
unfoldable pub on_mutate : Text → CaseStatus → Cache → Cache × Option (List Case)
on_mutate id to q =
    (record q { cases = set_list id to q.cases; details = set_detail id to q.details }, q.cases)

-- onError
unfoldable pub on_error : Option (List Case) → Cache → Cache
on_error none q = q
on_error (some cs) q = record q { cases = some cs }

-- onSettled
unfoldable pub on_settled : Text → Cache → Cache
on_settled id q = record q {
  invalidated = q.invalidated ++ (utf16 "cases" ∷ []) ∷ (utf16 "cases" ∷ id ∷ []) ∷ [];
}

-- A change that the server refuses.
unfoldable pub failed : Text → CaseStatus → Cache → Cache
unfolding on_mutate on_error on_settled
failed id to q = let m = on_mutate id to q in on_settled id (on_error m.1 m.0)
