-- ===== src/Pages/StoreBoard.antt =====
-- `admin/src/pages/StoreBoard.tsx`: the counts, the rank of the store in its region and the reminders.
-- The data has at least one store, the first argument of `board`. A number in a reminder stands for
-- the text that has it.
pub mod Rank
use wachen.Base.{
  ℕ, ◌+◌, Bool, true, false, ◌&&◌, List, [], ◌∷◌, ◌++◌, Option, none, some, or_else, Text, utf16,
  text_Eq, ◌==◌, if◌then◌else◌, ltb, filter, find, cnt, take, length, position, includes,
}
use wachen.Base.Int.{ℤ, pos, ltb_ℤ}
use wachen.Base.Sort.{sort}
use wachen.Time.{parse}
use wachen.Domain.{
  high, Sentiment, negative, CaseStatus, unassigned, open_, in_progress, risk_Eq, sentiment_Eq,
  status_Eq, is_active,
}
use wachen.Case.{WaCase, WaStore}
use wachen.Filter.Admin.{is_past}

pub data Reminder : Type 0 where
  over_sla : ℕ → Reminder
  new_high : ℕ → Text → Reminder
  attitude : Reminder
  rating_change : ℤ → Bool → Reminder

-- The place of the store among those of its region, the fewest negative reviews first; 0 where it is
-- not found.
unfoldable pub rank_of : Text → List WaStore → ℕ
unfolding sort
rank_of name ss = position (λ s. s.store == name) (sort (λ a b. ltb a.neg b.neg) ss)

abbrev pub high_reminder : List WaCase → List Reminder
high_reminder [] = []
high_reminder (c ∷ cs) = new_high (length (c ∷ cs)) (take 40 c.summary) ∷ []

pub record Board : Type 0 where
  pub store : WaStore
  pub total : ℕ
  pub neg : ℕ
  pub open_count : ℕ
  pub overdue : ℕ
  pub rank : ℕ
  pub in_region : ℕ
  pub reminders : List Reminder
  pub recent : List WaCase

-- `r.store ?? DB.stores[0].store`
abbrev pub store_name : Option Text → WaStore → Text
store_name own first = or_else own first.store

-- `["unassigned", "open", "in_progress"].includes(c.cstatus)`
abbrev pub is_pending : WaCase → Bool
is_pending c = includes c.cstatus (unassigned ∷ open_ ∷ in_progress ∷ [])

unfoldable pub reminders : ℕ → WaStore → List WaCase → List Reminder
reminders overdue so cs =
    (if ltb 0 overdue then over_sla overdue ∷ [] else [])
    ++ (high_reminder (filter (λ c. c.risk_level == high) cs)
        ++ (attitude ∷ rating_change so.trend (ltb_ℤ so.trend (pos 0)) ∷ []))

-- The board of the store `so` among `stores`.
unfoldable pub board_of :
    (Text → Text → Bool) → ℕ → List WaStore → Text → WaStore → List WaCase → Board
unfolding rank_of reminders sort
board_of precedes now stores name so cases =
    let cs = filter (λ c. c.store == name) cases in
    let overdue = cnt (λ c. is_active c.cstatus && is_past (parse c.sla_due_at) now) cs in
    let region_stores = filter (λ s. s.region == so.region) stores in
    record {
      store = so;
      total = length cs;
      neg = cnt (λ c. c.sentiment == negative) cs;
      open_count = cnt is_pending cs;
      overdue = overdue;
      rank = rank_of name region_stores;
      in_region = length region_stores;
      reminders = reminders overdue so cs;
      recent = take 10 (sort (λ a b. precedes b.posted_at a.posted_at) cs);
    }

unfoldable pub board :
    (Text → Text → Bool) → ℕ → WaStore → List WaStore → Option Text → List WaCase → Board
board precedes now first others own cases =
    let stores = first ∷ others in
    let name = store_name own first in
    board_of precedes now stores name (or_else (find (λ s. s.store == name) stores) first) cases
