-- ===== src/Db/Reload.antt =====
-- The page is closed and opened again: what `persist` wrote is what the next load reads.
use wachen.Base.{
  ◌≡◌, refl, sym, ap, ◌∙◌, inl, inr, Bool, false, List, [], ◌∷◌, map, none, some, Text, text_eq,
  Bool-cases, Option-cases, get, put, get-put, is_some, text_Eq, subst,
}
use wachen.Base.Predicates.{All, Pairs, Distinct, All-of_In, map-Pairs}
use wachen.Base.LastBy.{last_by, last_by-In}
use wachen.Domain.{CaseStatus}
use wachen.Case.{RawCase, WaCase, Notice}
use wachen.Db.{
  Slot, holds, Overrides, entry, collect_from, boot_case, boot, App, by_id, update_by_id,
  marked_read, with_status, start, Step, Reach, here, next, open_case, open_store, close_drawer,
  set_status, mark_read, mark_all_read, clear_filters, subscribe, unsubscribe, bump, opens_case,
  opens_store, closes, sets_status, marks, marks_all, clears, filters, subscribes, unsubscribes,
}
use wachen.Db.Invariant.{
  IsOf, Inv, Reach-Inv_from, start-Inv, update_by_id-IsOf, marked_read-IsOf, with_status-IsOf,
}

-- What `persist` writes for an id is the state of the last case with that id.
get-collect_from :
    (k : Text) (o : Overrides) (cs : List WaCase)
    → get k (collect_from o cs) ≡ (elim (by_id k cs) [ none ↦ get k o | some c ↦ some (entry c) ])
unfolding collect_from by_id last_by
get-collect_from k o [] = refl
get-collect_from k o (c ∷ cs) = elim (Option-cases (last_by (λ d. d.id) k cs)) [
  | inl e ↦
      get-collect_from k (put c.id (entry c) o) cs
      ∙ rw (e) (
          get-put c.id k (entry c) o
          ∙ elim (Bool-cases (text_eq c.id k)) [ inl t ↦ rw t refl | inr t ↦ rw t refl ])
  | inr (d, e) ↦ get-collect_from k (put c.id (entry c) o) cs ∙ rw e refl
]

-- What a user sees of the state of a case: its id, status, read flag, code and escalation flag.
abbrev pub View : Type 0
View = Text × CaseStatus × Bool × Text × Bool

abbrev pub view : WaCase → View
view c = (c.id, c.cstatus, c.read, c.code, c.escalated)

view-boot_case :
    (ov : Overrides) (r : RawCase) (c : WaCase)
    → IsOf r c
    → get c.id ov ≡ some (entry c)
    → view (boot_case ov r) ≡ view c
unfolding boot_case
view-boot_case ov r c h found =
    subst (λ q. view (boot_case ov q) ≡ view c) h.same (rw found (cc (h.coded, h.flagged)))

view-boot_cases :
    (ov : Overrides) (rs : List RawCase) (cs : List WaCase)
    → Pairs IsOf rs cs
    → All (λ c. get c.id ov ≡ some (entry c)) cs
    → map view (map (boot_case ov) rs) ≡ map view cs
view-boot_cases ov [] [] h k = refl
view-boot_cases ov [] (c ∷ cs) h k = absurd h
view-boot_cases ov (r ∷ rs) [] h k = absurd h
view-boot_cases ov (r ∷ rs) (c ∷ cs) (h, hs) (k, ks) =
    cc (view-boot_case ov r c h k, view-boot_cases ov rs cs hs ks)

ids :
    (rs : List RawCase) (cs : List WaCase)
    → Pairs IsOf rs cs
    → map (λ r. r.id) rs ≡ map (λ c. c.id) cs
ids rs cs h = map-Pairs IsOf (λ r. r.id) (λ c. c.id) (λ r c k. ap (λ q. q.id) (sym k.same)) rs cs h

found :
    (cs : List WaCase)
    → Distinct (map (λ c. c.id) cs)
    → All (λ c. get c.id (collect_from [] cs) ≡ some (entry c)) cs
unfolding by_id
found cs d =
    All-of_In _ cs (λ c m. get-collect_from c.id [] cs ∙ rw (last_by-In (λ e. e.id) cs d m) refl)

-- A page that is loaded from what was just written shows what was written.
boot-collect :
    (rs : List RawCase) (cs : List WaCase)
    → Distinct (map (λ r. r.id) rs)
    → Pairs IsOf rs cs
    → map view (boot (holds (collect_from [] cs)) rs) ≡ map view cs
unfolding boot
boot-collect rs cs d h =
    view-boot_cases (collect_from [] cs) rs cs h (found cs (subst Distinct (ids rs cs h) d))

-- What a reload would show is what is shown.
abbrev IsKept : List RawCase → App → Type 0
IsKept rs s = map view (boot s.slot rs) ≡ map view s.cases

module _ (rs : List RawCase) (d : Distinct (map (λ r. r.id) rs)) (s : App) (v : Inv rs s)
    (full : s.storage_full ≡ false) (k : IsKept rs s) where
  open_case-IsKept :
      (id : Text) → ((open_case id s).storage_full ≡ false) × IsKept rs (open_case id s)
  unfolding open_case
  open_case-IsKept id = elim (Bool-cases (is_some (by_id id s.cases))) [
    | inl e ↦
        let cs = update_by_id id marked_read s.cases in
        let w = update_by_id-IsOf id marked_read marked_read-IsOf rs s.cases v.cases in
        rw (e, full) (refl, boot-collect rs cs d w)
    | inr e ↦ rw e (full, k)
  ]

  set_status-IsKept :
      (id : Text) (to : CaseStatus)
      → ((set_status id to s).storage_full ≡ false) × IsKept rs (set_status id to s)
  unfolding set_status
  set_status-IsKept id to = elim (Bool-cases (is_some (by_id id s.cases))) [
    | inl e ↦
        let cs = update_by_id id (with_status to) s.cases in
        let w = update_by_id-IsOf id (with_status to) (with_status-IsOf to) rs s.cases v.cases in
        rw (e, full) (refl, boot-collect rs cs d w)
    | inr e ↦ rw e (full, k)
  ]

-- No call fills the storage, and what a call changes of the cases it writes.
Step-IsKept :
    (rs : List RawCase)
    → Distinct (map (λ r. r.id) rs)
    → {s t : App} → Step s t
    → Inv rs s
    → (s.storage_full ≡ false) × IsKept rs s
    → (t.storage_full ≡ false) × IsKept rs t
unfolding open_store close_drawer mark_read mark_all_read clear_filters subscribe unsubscribe bump
Step-IsKept rs d (opens_case id s) v (e, k) = open_case-IsKept rs d s v e k id
Step-IsKept rs d (sets_status id to s) v (e, k) = set_status-IsKept rs d s v e k id to
Step-IsKept rs d (opens_store name s) v h = h
Step-IsKept rs d (closes s) v h = h
Step-IsKept rs d (marks nid s) v h = h
Step-IsKept rs d (marks_all ids s) v h = h
Step-IsKept rs d (clears s) v h = h
Step-IsKept rs d (filters rf s) v h = h
Step-IsKept rs d (subscribes l s) v h = h
Step-IsKept rs d (unsubscribes l s) v h = h

Reach-IsKept_from :
    (rs : List RawCase)
    → Distinct (map (λ r. r.id) rs)
    → {s t : App} → Reach s t
    → Inv rs s
    → (s.storage_full ≡ false) × IsKept rs s
    → (t.storage_full ≡ false) × IsKept rs t
Reach-IsKept_from rs d here v h = h
Reach-IsKept_from rs d (next r st) v h =
    Step-IsKept rs d st (Reach-Inv_from rs r v) (Reach-IsKept_from rs d r v h)

-- If no two cases of the data have the same id and the storage takes what is written, then after any
-- calls, a page that is opened anew from the storage shows for every case the id, the status, the
-- read flag, the code and the escalation flag that it shows now.
pub reload_shows_same :
    (slot : Slot) (rs : List RawCase) (ns : List Notice) {t : App}
    → Distinct (map (λ r. r.id) rs)
    → Reach (start slot false rs ns) t
    → map view (boot t.slot rs) ≡ map view t.cases
unfolding start
reload_shows_same slot rs ns d r =
    (Reach-IsKept_from rs d r (start-Inv slot false rs ns) (refl, refl)).1

-- The reopened counts are not written: a page that is opened anew has those of the data again,
-- whatever the storage holds.
pub reload_forgets_reopened :
    (slot : Slot) (rs : List RawCase) → map (λ c. c.raw) (boot slot rs) ≡ rs
unfolding boot boot_case
reload_forgets_reopened slot [] = refl
reload_forgets_reopened slot (r ∷ rs) = ap (λ q. r ∷ q) (reload_forgets_reopened slot rs)
