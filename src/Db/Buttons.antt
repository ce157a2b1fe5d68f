-- ===== src/Db/Buttons.antt =====
-- The status buttons of the drawer, `components/Drawer.tsx`: what a click does to the case, and what
-- clicks alone can do.
use wachen.Base.{
  ◌≡◌, refl, ◌∙◌, List, [], ◌∷◌, ℕ, ◌+◌, text_eq_iff, true, some, Text, text_eq, text_Eq, arith,
  Bool-cases, Option-cases, inl, inr, if◌then◌else◌,
}
use wachen.Base.LastBy.{last_by-update}
use mathlib.Core.Option
use wachen.Domain.{CaseStatus, open_, closed}
use wachen.Case.{WaCase}
use wachen.CaseMachine.{offers}
use wachen.CaseMachine.Graph.{offers-can_transition, ◌⟶◌, can_transition_iff, assign}
use wachen.Db.{App, by_id, with_status, set_status, is_reopening}

with_status-id : (to : CaseStatus) (c : WaCase) → (with_status to c).id ≡ c.id
unfolding with_status
with_status-id to c = refl

-- After `setStatus(id, to)` the case that the id names has the status `to`, with its reopened count
-- and its escalation flag to match, and every other id names the case that it named. Where the id
-- names no case, it still names none.
pub by_id-set_status :
    (id j : Text) (to : CaseStatus) (s : App)
    → by_id j (set_status id to s).cases
      ≡ (if text_eq id j then Option.map (with_status to) (by_id j s.cases) else by_id j s.cases)
unfolding set_status
by_id-set_status id j to s = elim (Option-cases (by_id id s.cases)) [
  | inl e ↦ rw e (ground (arith, text_eq_iff id j))
  | inr (c, e) ↦ rw e (last_by-update (λ d. d.id) id j (with_status to) (with_status-id to) s.cases)
]

-- Clicks on the buttons of the drawer, one after the other, with the id of the case and the status of the
-- button for each, the first one first. The buttons are drawn from `CASE_TRANS[c.cstatus]`.
pub data Clicks : App → List (Text × CaseStatus) → App → Type 0 where
  no_more : {s : App} → Clicks s [] s
  click :
      (id : Text) (to : CaseStatus) (c : WaCase) {s u : App} {ops : List (Text × CaseStatus)}
      → by_id id s.cases ≡ some c
      → offers c.cstatus to ≡ true
      → Clicks (set_status id to s) ops u
      → Clicks s ((id, to) ∷ ops) u

-- The statuses that were clicked for one id.
abbrev pub clicked : Text → List (Text × CaseStatus) → List CaseStatus
clicked id [] = []
clicked id ((j, to) ∷ ops) = if text_eq j id then to ∷ clicked id ops else clicked id ops

-- A way through the diagram, status by status.
abbrev pub Along : CaseStatus → List CaseStatus → Type 0
Along s [] = Unit
Along s (t ∷ ts) = (s ⟶ t) × Along t ts

abbrev pub ends_at : CaseStatus → List CaseStatus → CaseStatus
ends_at s [] = s
ends_at s (t ∷ ts) = ends_at t ts

-- How often that way goes from `closed` back to `open`.
abbrev pub is_reopened : CaseStatus → CaseStatus → ℕ
is_reopened closed open_ = 1
is_reopened _ _ = 0

abbrev pub reopenings : CaseStatus → List CaseStatus → ℕ
reopenings s [] = 0
reopenings s (t ∷ ts) = is_reopened s t + reopenings t ts

-- The case `d` is what those clicks make of `c`.
pub record Follows (c : WaCase) (ts : List CaseStatus) (d : WaCase) : Type 0 where
  pub along : Along c.cstatus ts
  pub arrived : d.cstatus ≡ ends_at c.cstatus ts
  pub counted : d.raw.reopened_count ≡ c.raw.reopened_count + reopenings c.cstatus ts

reopened-edge :
    {from to : CaseStatus} (e : from ⟶ to) (n : ℕ)
    → (if is_reopening from to then n + 1 else n) ≡ n + is_reopened from to
reopened-edge assign n = omega arith
reopened-edge _ n = omega arith

with_status-Follows :
    (c d : WaCase) (to : CaseStatus) (ts : List CaseStatus)
    → c.cstatus ⟶ to
    → Follows (with_status to c) ts d
    → Follows c (to ∷ ts) d
unfolding with_status
with_status-Follows c d to ts e f = record {
  along = (e, f.along);
  arrived = f.arrived;
  counted = omega (arith, reopened-edge e c.raw.reopened_count, f.counted);
}

Click-edge : (c : WaCase) (to : CaseStatus) → offers c.cstatus to ≡ true → c.cstatus ⟶ to
Click-edge c to h =
    (can_transition_iff c.cstatus to).0 (rw (offers-can_transition c.cstatus to) at h)

-- After any clicks on the status buttons, an id names a case exactly as before. The case that it named
-- has gone along the edges of the diagram, through just those statuses that were clicked for it, in
-- their order, and its reopened count has grown by the number of times that these go from `closed`
-- back to `open`.
pub Clicks-Follows :
    (id : Text) (c : WaCase) {s t : App} {ops : List (Text × CaseStatus)}
    → Clicks s ops t
    → by_id id s.cases ≡ some c
    → (d : WaCase) × (by_id id t.cases ≡ some d) × Follows c (clicked id ops) d
Clicks-Follows id c no_more h = (c, h, record { along = tt; arrived = refl; counted = omega arith })
Clicks-Follows id c (click j to b {s = s} {ops = ops} found offered rest) h =
    elim (Bool-cases (text_eq j id)) [
      | inl e ↦
          let same : j ≡ id = (text_eq_iff j id).0 e in
          let b≡c : b ≡ c = cc in
          let (d, k, f) =
            Clicks-Follows id (with_status to c) rest
              (by_id-set_status j id to s ∙ rw (e, h) refl) in
          (
            d,
            k,
            rw e (
                with_status-Follows c d to (clicked id ops) (Click-edge c to (rw (← b≡c) offered))
                  f),
          )
      | inr e ↦
          let (d, k, f) = Clicks-Follows id c rest (by_id-set_status j id to s ∙ rw (e, h) refl) in
          (d, k, rw e f)
    ]
