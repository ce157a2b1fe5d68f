-- ===== src/Mobile/Optimistic/Confirmed.antt =====
-- The optimistic list against the list that the mock has after the change.
use wachen.Base.{
  ◌≡◌, refl, ap, ◌≢◌, false, List, [], ◌∷◌, map, Text, text_eq, text_eq_iff, text_Eq, arith,
  is_some, Bool-cases, inl, inr, ne-==,
}
use wachen.Base.Predicates.{All, Distinct}
use wachen.Base.LastBy.{last_by, update_last_by, last_by-absent}
use wachen.Domain.{CaseStatus}
use wachen.Mobile.Domain.{Case}
use wachen.Mobile.Mock.{update_by_id, patched}
use wachen.Mobile.Optimistic.{relabel}

-- A case but for how often it was reopened.
abbrev pub uncounted : Case → Case
uncounted c = record c { reopened_count = 0 }

relabel-absent :
    (id : Text) (to : CaseStatus) (cs : List Case)
    → All (λ y. y ≢ id) (map (λ c. c.id) cs)
    → relabel id to cs ≡ cs
relabel-absent id to [] h = refl
relabel-absent id to (c ∷ cs) (h, hs) = rw (ne-== c.id id h, relabel-absent id to cs hs) refl

update-absent :
    (id : Text) (f : Case → Case) (cs : List Case)
    → is_some (last_by (λ c. c.id) id cs) ≡ false
    → update_last_by (λ c. c.id) id f cs ≡ cs
unfolding update_last_by last_by
update-absent id f [] h = refl
update-absent id f (c ∷ cs) h = ground arith

-- Where no two cases have the same id, the list that is shown during a status change is the one that
-- the mock has after it, but for the reopened counts, which only the mock counts on.
pub relabel-update_by_id :
    (id : Text) (to : CaseStatus) (cs : List Case)
    → Distinct (map (λ c. c.id) cs)
    → map uncounted (update_by_id id (patched to) cs) ≡ map uncounted (relabel id to cs)
unfolding update_by_id update_last_by patched
relabel-update_by_id id to [] d = refl
relabel-update_by_id id to (c ∷ cs) (a, d) = elim (Bool-cases (text_eq c.id id)) [
  | inl t ↦
      let same : c.id ≡ id = (text_eq_iff c.id id).0 t in
      let others : All (λ y. y ≢ id) (map (λ b. b.id) cs) = rw (← same) a in
      rw (last_by-absent (λ b. b.id) id cs others, t, relabel-absent id to cs others) refl
  | inr t ↦ elim (Bool-cases (is_some (last_by (λ b. b.id) id cs))) [
    | inl e ↦ rw (e, t) (ap (λ bs. uncounted c ∷ bs) (relabel-update_by_id id to cs d))
    | inr e ↦
        rw (e, t)
          (ap (λ bs. uncounted c ∷ bs)
            (rw (update-absent id (patched to) cs e) at (relabel-update_by_id id to cs d)))
  ]
]
