-- ===== src/Db/Watch.antt =====
-- What `useApp` of `admin/src/lib/db.ts` relies on: the version tells whether there is anything new.
use wachen.Base.{
  ◌≡◌, refl, ◌∙◌, ◌+◌, ◌<◌, ◌++◌, ◌⊎◌, inl, inr, List, Option, Text, arith, Bool-cases, is_some,
}
use wachen.Domain.{CaseStatus}
use wachen.Case.{WaCase, Notice, ReviewFilters}
use wachen.Db.{
  App, open_case, set_status, by_id, Step, opens_case, opens_store, closes, sets_status, marks,
  marks_all, clears, filters, subscribes, unsubscribes, Reach, here, next, open_store, close_drawer,
  mark_read, mark_all_read, clear_filters, bump, subscribe, unsubscribe,
}

-- What components draw from the module.
pub record Seen : Type 0 where
  pub cases : List WaCase
  pub notices : List Notice
  pub rf : ReviewFilters
  pub open_id : Option Text
  pub overflow : Text

abbrev pub seen : App → Seen
seen s = record {
  cases = s.cases;
  notices = s.notices;
  rf = s.rf;
  open_id = s.open_id;
  overflow = s.overflow;
}

-- Nothing to see is new, or the version is the next one and all listeners were called.
abbrev Told : App → App → Type 0
Told s t =
    ((seen t ≡ seen s) × (t.version ≡ s.version))
    ⊎ ((t.version ≡ s.version + 1) × (t.calls ≡ s.calls ++ s.listeners))

open_case-Told : (id : Text) (s : App) → Told s (open_case id s)
unfolding open_case
open_case-Told id s = elim (Bool-cases (is_some (by_id id s.cases))) [
  | inl e ↦ rw e (inr (refl, refl))
  | inr e ↦ rw e (inl (refl, refl))
]

set_status-Told : (id : Text) (to : CaseStatus) (s : App) → Told s (set_status id to s)
unfolding set_status
set_status-Told id to s = elim (Bool-cases (is_some (by_id id s.cases))) [
  | inl e ↦ rw e (inr (refl, refl))
  | inr e ↦ rw e (inl (refl, refl))
]

-- Each call changes nothing that is drawn, or raises the version by one and calls all listeners.
pub Step-Told : {s t : App} → Step s t → Told s t
unfolding open_store close_drawer mark_read mark_all_read clear_filters bump subscribe unsubscribe
Step-Told (opens_case id s) = open_case-Told id s
Step-Told (sets_status id to s) = set_status-Told id to s
Step-Told (subscribes l s) = inl (refl, refl)
Step-Told (unsubscribes l s) = inl (refl, refl)
Step-Told (opens_store name s) = inr (refl, refl)
Step-Told (closes s) = inr (refl, refl)
Step-Told (marks nid s) = inr (refl, refl)
Step-Told (marks_all ids s) = inr (refl, refl)
Step-Told (clears s) = inr (refl, refl)
Step-Told (filters rf s) = inr (refl, refl)

Reach-version :
    {s t : App}
    → Reach s t
    → ((seen t ≡ seen s) × (t.version ≡ s.version)) ⊎ (s.version < t.version)
Reach-version here = inl (refl, refl)
Reach-version (next r st) = elim (Reach-version r) [
  | inl (h, k) ↦ elim (Step-Told st) [
    | inl (h', k') ↦ inl (h' ∙ h, k' ∙ k)
    | inr (k', _) ↦ inr (omega arith)
  ]
  | inr lt ↦ elim (Step-Told st) [
    | inl (_, k') ↦ inr (omega arith)
    | inr (k', _) ↦ inr (omega arith)
  ]
]

-- A component that finds the version that it has drawn has missed nothing, whatever was called in
-- between: all that is drawn from the module is as it was.
pub Reach-fresh : {s t : App} → Reach s t → t.version ≡ s.version → seen t ≡ seen s
Reach-fresh r e = elim (Reach-version r) [ inl (h, _) ↦ h | inr lt ↦ absurd (omega arith) ]
