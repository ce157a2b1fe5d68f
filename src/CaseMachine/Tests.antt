-- ===== src/CaseMachine/Tests.antt =====
-- Runs of the state machine of a case.
use wachen.Base.{◌≡◌, refl, false, [], ◌∷◌, map}
use wachen.Domain.{open_, pending_review, done}
use wachen.CaseMachine.{case_trans, can_transition}

approve_only_done : map (λ t. t.label) (case_trans pending_review) ≡ ("主管核准" ∷ "退回重辦" ∷ [])
unfolding case_trans
approve_only_done = refl

no_skip : can_transition open_ done ≡ false
unfolding can_transition
no_skip = refl
