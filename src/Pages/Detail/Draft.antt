-- ===== src/Pages/Detail/Draft.antt =====
-- What becomes of the draft of a reply while it is sent.
use wachen.Base.{
  ◌≡◌, refl, ◌≢◌, ◌∙◌, false, true, some, List, [], ◌∷◌, Text, is_empty, Bool-cases, inl, inr,
}
use wachen.Api.{Outcome, value, empty, failed, Message}
use wachen.Api.Types.{CaseDetail}
use wachen.Pages.Detail.{DetailState, typed, act, load, acted, submit_reply, replied}

-- What can happen while a reply is sent. The button that sends one is disabled meanwhile.
pub data Event : Type 0 where
  types : Text → Event
  loads : Outcome CaseDetail → Event
  acts : Event
  ends_act : Outcome Text → Event

-- What the textarea holds after that, by what was typed.
abbrev pub last_typed : Text → List Event → Text
last_typed t [] = t
last_typed t (types u ∷ es) = last_typed u es
last_typed t (_ ∷ es) = last_typed t es

-- The backend took it.
abbrev pub Taken : {A : Type 0} → Outcome A → Type 0
Taken (failed m) = ⊥
Taken o = Unit

-- What the textarea holds once the reply was sent: nothing if the backend took it, and otherwise `t`.
abbrev pub left_over : {A : Type 0} → Outcome A → Text → Text
left_over (failed m) t = t
left_over o t = []

module _ (show text_of : Message → Text) (trim : Text → Text) where
  unfoldable pub happens : Event → DetailState → DetailState
  unfolding typed load act acted
  happens (types t) s = typed t s
  happens (loads o) s = load show text_of o s
  happens acts s = act s
  happens (ends_act o) s = (acted show text_of o s).0

  abbrev pub meanwhile : List Event → DetailState → DetailState
  meanwhile [] s = s
  meanwhile (e ∷ es) s = meanwhile es (happens e s)

  meanwhile-text :
      (es : List Event) (s : DetailState)
      → ((meanwhile es s).reply_text ≡ last_typed s.reply_text es)
        × ((meanwhile es s).sending ≡ s.sending)
  unfolding happens typed load act acted
  meanwhile-text [] s = (refl, refl)
  meanwhile-text (types t ∷ es) s = meanwhile-text es (happens (types t) s)
  meanwhile-text (loads (failed m) ∷ es) s = meanwhile-text es (happens (loads (failed m)) s)
  meanwhile-text (loads (value a) ∷ es) s = meanwhile-text es (happens (loads (value a)) s)
  meanwhile-text (loads empty ∷ es) s = meanwhile-text es (happens (loads empty) s)
  meanwhile-text (acts ∷ es) s = meanwhile-text es (happens acts s)
  meanwhile-text (ends_act (failed m) ∷ es) s = meanwhile-text es (happens (ends_act (failed m)) s)
  meanwhile-text (ends_act (value a) ∷ es) s = meanwhile-text es (happens (ends_act (value a)) s)
  meanwhile-text (ends_act empty ∷ es) s = meanwhile-text es s

  replied-text :
      {A : Type 0} (o : Outcome A) (s : DetailState)
      → ((replied show text_of o s).0.reply_text ≡ left_over o s.reply_text)
        × ((replied show text_of o s).0.sending ≡ false)
  unfolding replied
  replied-text (failed m) s = (refl, refl)
  replied-text (value a) s = (refl, refl)
  replied-text empty s = (refl, refl)

  -- A draft that is more than blanks is sent as it is when the button is pressed, trimmed, and the page is
  -- sending until the call ends. Whatever is typed, loaded or done to the case in between: if the
  -- call fails, the textarea still holds what was typed last; if the backend takes the reply, it is
  -- empty, and what was typed since the button was pressed is lost, although it was never sent.
  pub submit_reply_lem :
      {A : Type 0} (es : List Event) (o : Outcome A) (s : DetailState)
      → trim s.reply_text ≢ []
      → let r = submit_reply trim s in
        let t = meanwhile es r.0 in
        let u = (replied show text_of o t).0 in
        (r.1 ≡ some (trim s.reply_text))
        × (t.sending ≡ true)
        × (t.reply_text ≡ last_typed s.reply_text es)
        × (u.reply_text ≡ left_over o (last_typed s.reply_text es))
        × (u.sending ≡ false)
  unfolding submit_reply
  submit_reply_lem es o s h = elim (Bool-cases (is_empty (trim s.reply_text))) [
    | inl e ↦ absurd (h (blank (trim s.reply_text) e))
    | inr e ↦
        let b = record s { sending = true; err = [] } in
        let (p, q) = meanwhile-text es b in
        let (k, l) = replied-text o (meanwhile es b) in rw e (refl, q, p, k ∙ rw p refl, l)
  ]
    where
      blank : (t : Text) → is_empty t ≡ true → t ≡ []
      blank [] e = refl
      blank (c ∷ t) e = cc
