-- ===== src/Mobile/Optimistic/Rollback.antt =====
-- What is shown while a status change is under way, after it failed, and after it went through.
use wachen.Base.{
  ◌≡◌, refl, ap, ◌∙◌, List, [], ◌∷◌, ◌++◌, Option, none, some, Text, utf16, text_eq, text_Eq,
  text_eq_iff, arith, get, get-put, Option-cases, inl, inr, if◌then◌else◌,
}
use mathlib.Core.Option
use wachen.Domain.{CaseStatus}
use wachen.Base.Predicates.{In}
use wachen.Mobile.Domain.{Case}
use wachen.Mobile.Optimistic.{Cache, with_status, relabel, set_detail, on_mutate, on_error, failed}

get-set_detail :
    (id j : Text) (to : CaseStatus) (ds : List (Text × Case))
    → get j (set_detail id to ds)
      ≡ (if text_eq id j then Option.map (with_status to) (get j ds) else get j ds)
get-set_detail id j to ds = elim (Option-cases (get id ds)) [
  | inl e ↦ rw (e, set_detail) (ground (arith, text_eq_iff id j))
  | inr (c, e) ↦
      rw (e, set_detail) (get-put id j (with_status to c) ds ∙ ground (arith, text_eq_iff id j))
]

on_error-set_list :
    (id : Text) (to : CaseStatus) (q : Cache)
    → (on_error q.cases (on_mutate id to q).0).cases ≡ q.cases
unfolding on_error on_mutate
on_error-set_list id to q = elim (Option-cases q.cases) [
  | inl e ↦ rw e refl
  | inr (cs, e) ↦ rw e refl
]

on_error-details : (o : Option (List Case)) (q : Cache) → (on_error o q).details ≡ q.details
unfolding on_error
on_error-details none q = refl
on_error-details (some cs) q = refl

In-end : {A : Type 0} (xs : List A) (a b : A) → In b (xs ++ a ∷ b ∷ [])
In-end [] a b = inr (inl refl)
In-end (x ∷ xs) a b = inr (In-end xs a b)

-- A change that fails leaves the list as it was before, whatever the list was, and asks for the case
-- to be fetched anew. The entry of the case itself is not put back: until it is fetched, it has the
-- status that the server refused. Every other entry is as before.
pub failed_lem :
    (id j : Text) (to : CaseStatus) (q : Cache)
    → ((failed id to q).cases ≡ q.cases)
      × (get j (failed id to q).details ≡ (
          if text_eq id j then Option.map (with_status to) (get j q.details) else get j q.details))
      × In (utf16 "cases" ∷ id ∷ []) (failed id to q).invalidated
unfolding failed
failed_lem id j to q = (
  on_error-set_list id to q,
  ap (get j) (on_error-details q.cases (on_mutate id to q).0) ∙ get-set_detail id j to q.details,
  In-end _ _ _,
)

-- Two changes under way at once: where the first fails, the list is as it was before both, so the
-- second is no longer seen on it, although it may still go through.
pub on_error_drops_later :
    (first second : Text) (to next : CaseStatus) (cs : List Case) (q : Cache)
    → q.cases ≡ some cs
    → let one = on_mutate first to q in
      let two = on_mutate second next one.0 in
      ((on_error one.1 two.0).cases ≡ some cs)
      × (two.0.cases ≡ some (relabel second next (relabel first to cs)))
unfolding on_error on_mutate
on_error_drops_later first second to next cs q e = (rw e refl, rw e refl)
