-- ===== src/Db/Tests.antt =====
-- Runs of the data layer.
use wachen.Base.{text_Eq, ◌≡◌, refl, [], ◌∷◌, map, List, some, false, true, utf16, ==_ne, Text}
use wachen.Domain.{open_, canceled, closed}
use wachen.Db.{
  App, absent, start, boot, by_id, open_case, set_status, with_status, Reach, here, next,
  opens_case, sets_status, subscribe, subscribes,
}
use wachen.Db.Refinement
use wachen.Db.Refinement.{Op, memo, run, replay, run_refines}
use wachen.Db.Watch.{seen, Reach-fresh}
use wachen.Db.Invariant.{Inv, Reach-Inv}
use wachen.Db.Reload.{view, reload_shows_same}
use wachen.Db.Buttons.{click, Clicks, no_more, Follows, Clicks-Follows}
use wachen.CaseMachine.{offers}
use wachen.Case.{WaCase}
use wachen.Samples.{raws, open_soup, both, about_soup}

abbrev soup_id : Text
soup_id = utf16 "3f00aa"

abbrev fresh : App
fresh = start absent false raws (about_soup ∷ [])

abbrev worked : App
worked = set_status soup_id open_ (open_case soup_id fresh)

worked-Reach : Reach fresh worked
worked-Reach =
    next (next here (opens_case soup_id fresh))
      (sets_status soup_id open_ (open_case soup_id fresh))

reload_shows_same_example : map view (boot worked.slot raws) ≡ map view worked.cases
reload_shows_same_example =
    reload_shows_same absent raws (about_soup ∷ []) ((==_ne refl, tt), (tt, tt)) worked-Reach

Reach-Inv_example : Inv raws worked
Reach-Inv_example = Reach-Inv absent false raws (about_soup ∷ []) worked-Reach

-- A subscriber comes, and a call names no case.
abbrev idle : App
idle = open_case (utf16 "none") (subscribe 4 fresh)

same_version : idle.version ≡ fresh.version
unfolding open_case subscribe start
same_version = refl

Reach-fresh_example : seen idle ≡ seen fresh
Reach-fresh_example =
    Reach-fresh
      (next (next here (subscribes 4 fresh)) (opens_case (utf16 "none") (subscribe 4 fresh)))
      same_version

-- The drawer of an open case offers to cancel it.
abbrev shown : App
shown = record fresh { cases = both }

found : by_id soup_id shown.cases ≡ some open_soup
unfolding by_id
found = refl

can_cancel : offers open_ canceled ≡ true
unfolding offers
can_cancel = refl

abbrev gone : App
gone = set_status soup_id canceled shown

abbrev canceled_soup : WaCase
canceled_soup = with_status canceled open_soup

found_again : by_id soup_id gone.cases ≡ some canceled_soup
unfolding by_id set_status with_status
found_again = refl

can_revive : offers canceled_soup.cstatus open_ ≡ true
unfolding offers with_status
can_revive = refl

-- The case is canceled, and taken up again.
there_and_back :
    Clicks shown ((soup_id, canceled) ∷ (soup_id, open_) ∷ []) (set_status soup_id open_ gone)
there_and_back =
    click soup_id canceled open_soup found can_cancel
      (click soup_id open_ canceled_soup found_again can_revive no_more)

Clicks-Follows_example :
    (d : WaCase) × (by_id soup_id (set_status soup_id open_ gone).cases ≡ some d)
    × Follows open_soup (canceled ∷ open_ ∷ []) d
Clicks-Follows_example = Clicks-Follows soup_id open_soup there_and_back found

abbrev day : List Op
day =
    wachen.Db.Refinement.opens_case soup_id
    ∷ wachen.Db.Refinement.sets_status soup_id closed
    ∷ wachen.Db.Refinement.sets_status soup_id open_
    ∷ wachen.Db.Refinement.closes
    ∷ []

run_refines_example : memo (run day fresh) ≡ replay day (memo fresh)
run_refines_example = run_refines day fresh
