-- ===== src/Pages/Login/Form.antt =====
-- The form of `admin/src/pages/Login.tsx`, and what stands in it while the call is under way. Email and
-- password are states of their own.
use wachen.Base.{
  ◌≡◌, refl, Bool, true, false, [], ◌∷◌, Option, none, some, Text, String, if◌then◌else◌,
  Bool-cases, inl, inr,
}
use wachen.Api.{Outcome, value, empty, failed, Message}
use wachen.Pages.Login.{Account, LoginState, no_account, enter, submit}

pub record LoginForm : Type 0 where
  pub err : Option Text
  pub email : Text
  pub password : Text
  pub label : String
  pub disabled : Bool

-- `err ? … : null`
abbrev shown : Text → Option Text
shown [] = none
shown (c ∷ s) = some (c ∷ s)

unfoldable pub login_form : Text → Text → LoginState → LoginForm
login_form email password s = record {
  err = shown s.err;
  email = email;
  password = password;
  label = if s.busy then "驗證中…" else "登入";
  disabled = s.busy;
}

-- The part of `submit` before the call.
unfoldable pub called : LoginState → LoginState
called s = record s { err = []; busy = true }

module _ (first : Text) (text_of : Message → Text) (full : Text) where
  enter-done : (a : Account) (s : LoginState) → (enter first text_of full a s).busy ≡ false
  unfolding enter
  enter-done a s = elim (Bool-cases s.session.app.storage_full) [
    | inl e ↦ rw e refl
    | inr e ↦ rw e refl
  ]

  -- While the call is under way the button is disabled and no error is shown; however it ends, the button
  -- can be pressed again.
  submit-enabled :
      (email password : Text) (o : Outcome Account) (s : LoginState)
      → ((login_form email password (called s)).err ≡ none)
        × ((login_form email password (called s)).disabled ≡ true)
        × ((login_form email password (submit first text_of full o (called s))).disabled ≡ false)
  unfolding login_form called submit
  submit-enabled email password (value a) s = (refl, refl, enter-done a (called s))
  submit-enabled email password empty s = (refl, refl, enter-done no_account (called s))
  submit-enabled email password (failed m) s = (refl, refl, refl)
