-- ===== src/CaseMachine/Graph.antt =====
-- The transition diagram of a case, and what the tables of both clients have in common with it.
use wachen.Base.{◌≡◌, refl, ap, ◌≢◌, ◌↔◌, ◌⊎◌, inl, inr, true, false, any, ◌==◌, arith}
use wachen.Domain.{
  CaseStatus, unassigned, open_, in_progress, pending_review, pending_customer, done, closed,
  canceled, status_Eq,
}
use wachen.CaseMachine.{case_trans, case_transitions, can_transition, offers}

-- One edge of the diagram.
infix 40 ◌⟶◌ ◌⟶*◌
pub data ◌⟶◌ : CaseStatus → CaseStatus → Type 0 where
  assign : unassigned ⟶ open_
  start : open_ ⟶ in_progress
  cancel : open_ ⟶ canceled
  ask_customer : in_progress ⟶ pending_customer
  ask_manager : in_progress ⟶ pending_review
  finish : in_progress ⟶ done
  answered : pending_customer ⟶ in_progress
  settle : pending_customer ⟶ done
  approve : pending_review ⟶ done
  send_back : pending_review ⟶ in_progress
  close : done ⟶ closed
  redo : done ⟶ in_progress
  reopen : closed ⟶ open_
  revive : canceled ⟶ open_

pub data ◌⟶*◌ : CaseStatus → CaseStatus → Type 0 where
  here : {s : CaseStatus} → s ⟶* s
  then : {s t u : CaseStatus} → s ⟶ t → t ⟶* u → s ⟶* u

ruleset edges = (
  assign, start, cancel, ask_customer, ask_manager, finish, answered, settle, approve, send_back,
  close, redo, reopen, revive,
)

can_transition_sound : (s t : CaseStatus) → can_transition s t ≡ true → s ⟶ t
unfolding can_transition
can_transition_sound s t h = grind (arith, edges)

can_transition_complete : {s t : CaseStatus} → s ⟶ t → can_transition s t ≡ true
unfolding can_transition
can_transition_complete assign = refl
can_transition_complete _ = refl

-- `canTransition` accepts exactly the edges of the diagram.
pub can_transition_iff : (s t : CaseStatus) → (can_transition s t ≡ true) ↔ (s ⟶ t)
can_transition_iff s t = (can_transition_sound s t, can_transition_complete)

-- The tables of the two clients offer the same buttons in the same order, for every status.
pub case_trans-case_transitions : (s : CaseStatus) → case_trans s ≡ case_transitions s
unfolding case_trans case_transitions
case_trans-case_transitions unassigned = refl
case_trans-case_transitions _ = refl

-- What the admin client offers is what `canTransition` accepts.
pub offers-can_transition : (s t : CaseStatus) → offers s t ≡ can_transition s t
unfolding offers can_transition
offers-can_transition s t = ap (any (λ r. r.to == t)) (case_trans-case_transitions s)

⟶*-trans : {s t u : CaseStatus} → s ⟶* t → t ⟶* u → s ⟶* u
⟶*-trans here q = q
⟶*-trans (then e p) q = then e (⟶*-trans p q)

⟶*-open_ : (s : CaseStatus) → s ⟶* open_
⟶*-open_ unassigned = search (here, then, edges)
⟶*-open_ _ = search (here, then, edges)

open_-⟶* : (t : CaseStatus) → t ≢ unassigned → open_ ⟶* t
open_-⟶* unassigned h = absurd (h refl)
open_-⟶* _ _ = search (here, then, edges)

can_transition-false : (s : CaseStatus) → can_transition s unassigned ≡ false
unfolding can_transition
can_transition-false s = ground arith

not-⟶-unassigned : {s t : CaseStatus} → s ⟶ t → t ≢ unassigned
not-⟶-unassigned {s} e p =
    cc (can_transition_complete e, can_transition-false s, ap (can_transition s) p)

⟶*-unassigned : {s t : CaseStatus} → s ⟶* t → t ≡ unassigned → s ≡ unassigned
⟶*-unassigned here p = p
⟶*-unassigned (then e r) p = absurd (not-⟶-unassigned e (⟶*-unassigned r p))

⟶*_of_ne : (s t : CaseStatus) → t ≢ unassigned → s ⟶* t
⟶*_of_ne s t h = ⟶*-trans (⟶*-open_ s) (open_-⟶* t h)

-- The buttons lead from every status to every status but `unassigned`, and to that one only from
-- itself: no status is a dead end.
pub reaches_iff : (s t : CaseStatus) → (s ⟶* t) ↔ ((s ≡ t) ⊎ (t ≢ unassigned))
reaches_iff s unassigned =
    (λ r. inl (⟶*-unassigned r refl), elim [ inl e ↦ rw e here | inr h ↦ absurd (h refl) ])
reaches_iff s t = (λ _. inr (λ e. cc), λ _. ⟶*_of_ne s t (λ e. cc))
