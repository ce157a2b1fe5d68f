-- ===== src/Mobile/CaseList/Groups.antt =====
-- How the chips count the cases.
use wachen.Base.{◌≡◌, ◌+◌, List, [], ◌∷◌, arith, cnt, ◌==◌}
use wachen.Domain.{canceled, status_Eq}
use wachen.Mobile.Domain.{Case}
use wachen.Mobile.CaseList.{everything, to_assign, under_way, finished, count, rows}

-- The three groups of statuses overlap nowhere, and together they miss just the canceled cases, which
-- only the group of all cases has.
count-canceled :
    (cs : List Case)
    → count everything cs
      ≡ count to_assign cs
        + count under_way cs
        + count finished cs
        + cnt (λ c. c.cstatus == canceled) cs
unfolding count rows
count-canceled [] = omega arith
count-canceled (c ∷ cs) = ground (arith, count-canceled cs)
