-- ===== src/Drawer/Timeline.antt =====
-- How far the timeline of a case has come.
use wachen.Base.{ℕ, ◌+◌, ◌≡◌, refl, take}
use wachen.Domain.{
  CaseStatus, unassigned, open_, in_progress, pending_review, pending_customer, done, closed,
  canceled,
}
use wachen.Case.{WaCase}
use wachen.Drawer.CaseDrawer.{timeline}

-- The entries after the first three.
abbrev pub stage : CaseStatus → ℕ
stage unassigned = 0
stage open_ = 1
stage canceled = 1
stage in_progress = 2
stage pending_review = 2
stage pending_customer = 2
stage done = 3
stage closed = 3

abbrev pub with_cstatus : WaCase → CaseStatus → WaCase
with_cstatus c s = record c { cstatus = s }

-- The timeline of a case is the beginning of the one that it has when it is closed: three entries while
-- nobody has taken it, one more when it is opened or canceled, two more while it is worked on, and all
-- six once it is done or closed.
timeline-take :
    (c : WaCase) (s : CaseStatus)
    → timeline (with_cstatus c s) ≡ take (3 + stage s) (timeline (with_cstatus c closed))
unfolding timeline
timeline-take c unassigned = refl
timeline-take c open_ = refl
timeline-take c canceled = refl
timeline-take c in_progress = refl
timeline-take c pending_review = refl
timeline-take c pending_customer = refl
timeline-take c done = refl
timeline-take c closed = refl
