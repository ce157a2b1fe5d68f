-- ===== src/CaseMachine.antt =====
-- The state machine of a case: `CASE_TRANS` of `admin/src/lib/db.ts`, and `CASE_TRANSITIONS` and
-- `canTransition` of `mobile/src/domain/caseMachine.ts`.
pub mod Graph
mod Tests
use wachen.Base.{String, Bool, List, [], ◌∷◌, any, ◌==◌}
use wachen.Domain.{
  CaseStatus, unassigned, open_, in_progress, pending_review, pending_customer, done, closed,
  canceled, status_Eq,
}

-- The third component: `"pri"` or `'primary'`, `"ok"`, `""` or `'plain'`.
pub data TransitionStyle : Type 0 where
  primary ok plain : TransitionStyle

pub record Transition : Type 0 where
  pub to : CaseStatus
  pub label : String
  pub style : TransitionStyle

abbrev trans : CaseStatus → String → TransitionStyle → Transition
trans to label style = record { to = to; label = label; style = style }

-- CASE_TRANS: the buttons of each status, in order.
unfoldable pub case_trans : CaseStatus → List Transition
case_trans unassigned = trans open_ "指派受理" primary ∷ []
case_trans open_ = trans in_progress "開始處理" primary ∷ trans canceled "取消案件" plain ∷ []
case_trans in_progress =
    trans pending_customer "待顧客回覆" plain
    ∷ trans pending_review "送主管確認" plain
    ∷ trans done "標記完成" ok
    ∷ []
case_trans pending_customer = trans in_progress "顧客已回覆" primary ∷ trans done "標記完成" ok ∷ []
case_trans pending_review = trans done "主管核准" ok ∷ trans in_progress "退回重辦" plain ∷ []
case_trans done = trans closed "結案" primary ∷ trans in_progress "重新處理" plain ∷ []
case_trans closed = trans open_ "回開" plain ∷ []
case_trans canceled = trans open_ "重新啟用" plain ∷ []

-- CASE_TRANSITIONS of the mobile client.
unfoldable pub case_transitions : CaseStatus → List Transition
case_transitions unassigned = trans open_ "指派受理" primary ∷ []
case_transitions open_ = trans in_progress "開始處理" primary ∷ trans canceled "取消案件" plain ∷ []
case_transitions in_progress =
    trans pending_customer "待顧客回覆" plain
    ∷ trans pending_review "送主管確認" plain
    ∷ trans done "標記完成" ok
    ∷ []
case_transitions pending_customer = trans in_progress "顧客已回覆" primary ∷ trans done "標記完成" ok ∷ []
case_transitions pending_review = trans done "主管核准" ok ∷ trans in_progress "退回重辦" plain ∷ []
case_transitions done = trans closed "結案" primary ∷ trans in_progress "重新處理" plain ∷ []
case_transitions closed = trans open_ "回開" plain ∷ []
case_transitions canceled = trans open_ "重新啟用" plain ∷ []

-- canTransition; every status has a row, so the `?? false` is never reached.
unfoldable pub can_transition : CaseStatus → CaseStatus → Bool
unfolding case_transitions
can_transition from to = any (λ t. t.to == to) (case_transitions from)

-- The buttons that the admin client draws under `CASE_TRANS[c.cstatus]`.
unfoldable pub offers : CaseStatus → CaseStatus → Bool
unfolding case_trans
offers from to = any (λ t. t.to == to) (case_trans from)
