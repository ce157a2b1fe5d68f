-- ===== src/Db/Invariant.antt =====
-- What holds of the data layer after every sequence of calls.
use wachen.Base.{
  ◌≡◌, refl, ◌≤◌, Bool, List, [], ◌∷◌, none, some, Text, utf16, arith, Bool-cases, inl, inr,
  is_some,
}
use wachen.Base.Predicates.{Pairs}
use wachen.Base.LastBy.{update-Pairs}
use wachen.Domain.{CaseStatus}
use wachen.Case.{RawCase, WaCase, Notice}
use wachen.SeedStatus.{case_code}
use wachen.Db.{
  Slot, Overrides, boot_case, boot, load, App, is_escalated, marked_read, with_status, open_case,
  open_store, close_drawer, set_status, mark_read, mark_all_read, clear_filters, subscribe,
  unsubscribe, bump, update_by_id, start, by_id, Step, opens_case, opens_store, closes, sets_status,
  marks, marks_all, clears, filters, subscribes, unsubscribes, Reach, here, next,
}

-- A case `c` of the client stands for the case `r` of the data: nothing of `r` has changed but the
-- number of times that it was reopened, which never falls, and the fields that the client computed
-- are up to date.
pub record IsOf (r : RawCase) (c : WaCase) : Type 0 where
  pub same : record c.raw { reopened_count = r.reopened_count } ≡ r
  pub grown : r.reopened_count ≤ c.raw.reopened_count
  pub coded : c.code ≡ case_code c.raw.id
  pub flagged : c.escalated ≡ is_escalated c.raw.risk_level c.cstatus

pub boot_case-IsOf : (ov : Overrides) (r : RawCase) → IsOf r (boot_case ov r)
unfolding boot_case
boot_case-IsOf ov r = record { same = refl; grown = omega arith; coded = refl; flagged = refl }

pub marked_read-IsOf : (r : RawCase) (c : WaCase) → IsOf r c → IsOf r (marked_read c)
marked_read-IsOf r c h = record {
  same = h.same;
  grown = h.grown;
  coded = h.coded;
  flagged = h.flagged;
}

pub with_status-IsOf :
    (to : CaseStatus) (r : RawCase) (c : WaCase) → IsOf r c → IsOf r (with_status to c)
unfolding with_status
with_status-IsOf to r c h = record {
  same = h.same;
  grown = ground (arith, h.grown);
  coded = h.coded;
  flagged = refl;
}

boot-Pairs : (slot : Slot) (rs : List RawCase) → Pairs IsOf rs (boot slot rs)
unfolding boot
boot-Pairs slot [] = tt
boot-Pairs slot (r ∷ rs) = (boot_case-IsOf (load slot) r, boot-Pairs slot rs)

-- The page is locked against scrolling exactly while the drawer is open.
abbrev pub IsLocked : App → Type 0
IsLocked s = elim s.open_id [ none ↦ s.overflow ≡ [] | some _ ↦ s.overflow ≡ utf16 "hidden" ]

pub record Inv (rs : List RawCase) (s : App) : Type 0 where
  pub cases : Pairs IsOf rs s.cases
  pub locked : IsLocked s

pub update_by_id-IsOf :
    (id : Text) (f : WaCase → WaCase)
    → ((r : RawCase) (c : WaCase) → IsOf r c → IsOf r (f c))
    → (rs : List RawCase) (cs : List WaCase) → Pairs IsOf rs cs
    → Pairs IsOf rs (update_by_id id f cs)
unfolding update_by_id
update_by_id-IsOf id f keep rs cs h = update-Pairs (λ c. c.id) IsOf id f keep rs cs h

open_case-Inv : (rs : List RawCase) (id : Text) (s : App) → Inv rs s → Inv rs (open_case id s)
unfolding open_case
open_case-Inv rs id s h = elim (Bool-cases (is_some (by_id id s.cases))) [
  | inl e ↦ rw e (record {
    cases = update_by_id-IsOf id marked_read marked_read-IsOf rs s.cases h.cases;
    locked = refl;
  })
  | inr e ↦ rw e h
]

set_status-Inv :
    (rs : List RawCase) (id : Text) (to : CaseStatus) (s : App)
    → Inv rs s
    → Inv rs (set_status id to s)
unfolding set_status
set_status-Inv rs id to s h = elim (Bool-cases (is_some (by_id id s.cases))) [
  | inl e ↦ rw e (record {
    cases = update_by_id-IsOf id (with_status to) (with_status-IsOf to) rs s.cases h.cases;
    locked = h.locked;
  })
  | inr e ↦ rw e h
]

Step-Inv : (rs : List RawCase) {s t : App} → Step s t → Inv rs s → Inv rs t
unfolding open_store close_drawer mark_read mark_all_read clear_filters subscribe unsubscribe bump
Step-Inv rs (opens_case id s) h = open_case-Inv rs id s h
Step-Inv rs (opens_store name s) h = record { cases = h.cases; locked = refl }
Step-Inv rs (closes s) h = record { cases = h.cases; locked = refl }
Step-Inv rs (sets_status id to s) h = set_status-Inv rs id to s h
Step-Inv rs (marks nid s) h = record { cases = h.cases; locked = h.locked }
Step-Inv rs (marks_all ids s) h = record { cases = h.cases; locked = h.locked }
Step-Inv rs (clears s) h = record { cases = h.cases; locked = h.locked }
Step-Inv rs (filters rf s) h = record { cases = h.cases; locked = h.locked }
Step-Inv rs (subscribes l s) h = record { cases = h.cases; locked = h.locked }
Step-Inv rs (unsubscribes l s) h = record { cases = h.cases; locked = h.locked }

pub start-Inv :
    (slot : Slot) (full : Bool) (rs : List RawCase) (ns : List Notice)
    → Inv rs (start slot full rs ns)
unfolding start
start-Inv slot full rs ns = record { cases = boot-Pairs slot rs; locked = refl }

pub Reach-Inv_from : (rs : List RawCase) {s t : App} → Reach s t → Inv rs s → Inv rs t
Reach-Inv_from rs here h = h
Reach-Inv_from rs (next r st) h = Step-Inv rs st (Reach-Inv_from rs r h)

-- After any calls, whatever `localStorage` held: the cases are those of the data in their order, with
-- nothing changed but the reopened count, which is not below that of the data; each has the code of
-- its id and the escalation flag of its risk and status; and the page is locked against scrolling
-- exactly while the drawer is open.
pub Reach-Inv :
    (slot : Slot) (full : Bool) (rs : List RawCase) (ns : List Notice) {t : App}
    → Reach (start slot full rs ns) t
    → Inv rs t
Reach-Inv slot full rs ns r = Reach-Inv_from rs r (start-Inv slot full rs ns)
