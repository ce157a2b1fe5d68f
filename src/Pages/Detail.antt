-- ===== src/Pages/Detail.antt =====
-- The state of `admin/src/pages/CaseDetail.tsx`, and what changes it: typing, and the two handlers, each up to
-- its `await` and after it. The list that a handler asks for at its end comes as an answer of its own.
-- `show` is `String(e)`, `text_of` is `ex.message` and `trim` is `trim()`.
pub mod Draft
use wachen.Base.{
  Bool, true, false, List, [], ◌∷◌, Option, none, some, Text, is_empty, if◌then◌else◌,
}
use wachen.Api.{Outcome, value, empty, failed, Message}
use wachen.Api.Types.{CaseDetail}

pub record DetailState : Type 0 where
  pub detail : Option (Outcome CaseDetail)
  pub err : Text
  pub reply_text : Text
  pub sending : Bool

abbrev pub no_detail : DetailState
no_detail = record { detail = none; err = []; reply_text = []; sending = false }

-- `onChange` of the textarea, which is never disabled.
unfoldable pub typed : Text → DetailState → DetailState
typed t s = record s { reply_text = t }

-- `act` up to its `await`.
unfoldable pub act : DetailState → DetailState
act s = record s { err = [] }

module _ (trim : Text → Text) where
  -- `submitReply` up to its `await`: the state, and what is sent.
  unfoldable pub submit_reply : DetailState → DetailState × Option Text
  submit_reply s =
      let content = trim s.reply_text in
      if is_empty content then (s, none) else (record s { sending = true; err = [] }, some content)

module _ (show text_of : Message → Text) where
  -- The end of a request of `load`; a body that is no JSON is shown as the object `{}`.
  unfoldable pub load : Outcome CaseDetail → DetailState → DetailState
  load (failed m) s = record s { err = show m }
  load o s = record s { detail = some o }

  -- The rest of `act`; the flag says that it goes on with `load`.
  unfoldable pub acted : {A : Type 0} → Outcome A → DetailState → DetailState × Bool
  acted (failed m) s = (record s { err = text_of m }, false)
  acted o s = (s, true)

  -- The rest of `submitReply`; the flag says that it goes on with `load`.
  unfoldable pub replied : {A : Type 0} → Outcome A → DetailState → DetailState × Bool
  replied (failed m) s = (record s { err = text_of m; sending = false }, false)
  replied o s = (record s { reply_text = []; sending = false }, true)
