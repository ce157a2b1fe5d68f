-- ===== src/Pages/Approvals.antt =====
-- `admin/src/pages/Approvals.tsx`: the queue of replies that wait for approval, as steps of the page and
-- of the backend. `show` is `String(e)` and `text_of` is `ex.message`. A request that is under way is in
-- `waiting`; the one that decides has what it decides and the id of the reply.
pub mod Queue
use wachen.Base.{
  ◌≡◌, ℕ, ◌+◌, Bool, true, false, List, [], ◌∷◌, ◌++◌, Option, none, some, Text, utf16, is_some,
}
use wachen.Base.Predicates.{In}
use wachen.Api.{Call, approvals, approve_reply, reject_reply, Message}
use wachen.Api.Types.{PendingApproval}

pub data Decision : Type 0 where
  approve reject : Decision

-- The call that a decision makes.
unfoldable pub call_of : Decision → Text → Call
call_of approve id = approve_reply id
call_of reject id = reject_reply id (utf16 "審核退回")

pub record Approvals : Type 0 where
  pub list : Option (List PendingApproval)
  pub err : Text
  -- The requests that were sent, the last one first.
  pub sent : List Call

-- `load`
unfoldable pub load : Approvals → Approvals
load s = record s { sent = approvals ∷ s.sent }

-- The page once its effect has run.
unfoldable pub opened : Approvals
unfolding load
opened = load (record { list = none; err = []; sent = [] })

-- `decide`, up to the `await`.
unfoldable pub decide : Decision → Text → Approvals → Approvals
unfolding call_of
decide d id s = record s { err = []; sent = call_of d id ∷ s.sent }

-- How a promise ended.
pub data Ended (A : Type 0) : Type 0 where
  fulfilled : A → Ended A
  rejected : Message → Ended A

module _ (show text_of : Message → Text) where
  unfoldable pub loaded : Ended (List PendingApproval) → Approvals → Approvals
  loaded (fulfilled r) s = record s { list = some r }
  loaded (rejected m) s = record s { err = show m }

  -- The rest of `decide`.
  unfoldable pub decided : Ended Unit → Approvals → Approvals
  unfolding load
  decided (fulfilled _) s = load s
  decided (rejected m) s = record s { err = text_of m }

  pub data Step : Approvals → Approvals → Type 0 where
    -- The interval of 15 seconds.
    polls : (s : Approvals) → Step s (load s)
    loads :
        (r : Ended (List PendingApproval)) (s : Approvals)
        → In approvals s.sent
        → Step s (loaded r s)
    -- A click on a button of a reply of the list.
    clicks :
        (d : Decision) (p : PendingApproval) (ps : List PendingApproval) (s : Approvals)
        → s.list ≡ some ps
        → In p ps
        → Step s (decide d p.id s)
    decides :
        (d : Decision) (id : Text) (r : Ended Unit) (s : Approvals)
        → In (call_of d id) s.sent
        → Step s (decided r s)

  pub data Reach (s : Approvals) : Approvals → Type 0 where
    here : Reach s s
    next : {t u : Approvals} → Reach s t → Step t u → Reach s u

-- What the page draws.
pub data QueueView : Type 0 where
  loading nothing_waits : QueueView
  cards : List PendingApproval → QueueView

unfoldable pub queue_view : Option (List PendingApproval) → QueueView
queue_view none = loading
queue_view (some []) = nothing_waits
queue_view (some (p ∷ ps)) = cards (p ∷ ps)
