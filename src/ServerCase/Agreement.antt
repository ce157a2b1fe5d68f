-- ===== src/ServerCase/Agreement.antt =====
-- The buttons of both clients against the table of the backend.
use wachen.Base.{◌≡◌, ◌↔◌, true, ◌&&◌, arith, any}
use wachen.Domain.{CaseStatus, in_progress, open_}
use wachen.CaseMachine.{can_transition}
use wachen.ServerCase.{ServerStatus, status_is, actions, valid_transitions, patch_accepted}

-- The admin client offers exactly the changes of status that the backend accepts.
actions-valid_transitions :
    (s t : ServerStatus) → any (λ a. status_is a.0 t) (actions s) ≡ valid_transitions s t
unfolding actions valid_transitions
actions-valid_transitions s t = ground arith

-- Of the changes that the mobile client offers, the backend accepts one only, from `open` to
-- `in_progress`.
pub patch_accepted_iff :
    (s t : CaseStatus)
    → ((can_transition s t && patch_accepted s t) ≡ true) ↔ ((s ≡ open_) × (t ≡ in_progress))
unfolding can_transition patch_accepted
patch_accepted_iff s t = ground arith
