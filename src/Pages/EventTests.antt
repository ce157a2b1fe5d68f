-- ===== src/Pages/EventTests.antt =====
-- Runs of the inbox and of the sign-in of the admin client.
use wachen.Base.{◌≡◌, refl, [], Text, false}
use wachen.Domain.{risk_Eq, status_Eq}
use wachen.Db.{App, absent, start}
use wachen.Samples.{raws}
use wachen.Base.{none, some, utf16}
use wachen.Api.{Message}
use wachen.Base.{inl, inr, true}
use wachen.Base.Predicates.{In}
use wachen.Pages.Inbox
use wachen.Pages.Inbox.{
  Inbox, opened, changed, arrived, is_google_source, with_source, sets_source, sets_rating, answers,
  here, next,
}
use wachen.Pages.Inbox.Runs.{Inv, inbox_Reach-Inv}
use wachen.Roles.Table.{tk, roles}
use wachen.Roles.Session.{login_role_id, cur_role}
use wachen.Shell.{Frame, frame, shell}
use wachen.Api.{value, backend_role}
use wachen.Pages.Login.{LoginState, submit}
use wachen.Pages.Login.SignIn.{submit-frame}

abbrev as_is : Text → Text
as_is t = t

abbrev tell : Message → Text
tell m = utf16 "error"

abbrev app : App
app = start absent false raws []

google : is_google_source as_is (utf16 "google maps") ≡ true
unfolding is_google_source
google = refl

abbrev at_google : Inbox
at_google = changed (with_source as_is (utf16 "google maps") opened.filters) opened

google_chosen : is_google_source as_is at_google.filters.source ≡ true
unfolding is_google_source changed with_source
google_chosen = refl

-- The answer to the first request comes after the filters have changed twice.
abbrev five_stars : Inbox
five_stars = changed (record at_google.filters { rating = utf16 "5" }) at_google

first_sent : In (0, wachen.Pages.Inbox.no_filters) five_stars.sent
unfolding changed opened
first_sent = inr (inr (inl refl))

inbox_Reach-Inv_example : Inv as_is (arrived 0 [] five_stars)
inbox_Reach-Inv_example = inbox_Reach-Inv as_is (
    next
      (next (next here (sets_source (utf16 "google maps") opened))
        (sets_rating (utf16 "5") at_google google_chosen))
      (answers 0 wachen.Pages.Inbox.no_filters [] five_stars first_sent))

-- A role of another tenant was left behind by the account before.
abbrev at_login : LoginState
at_login = record {
  browser = record {
    storage = record { token = none; name = none; role = none };
    location = utf16 "/login";
  };
  session = record { app = app; role_id = tk; role_key = some (utf16 "tk") };
  err = [];
  busy = false;
}

submit-frame_example :
    let t =
      submit
        (utf16 "East")
        tell
        (utf16 "full")
        (value (record { token = utf16 "t"; name = utf16 "Lin"; role = utf16 "store_manager" }))
        at_login in
    let account = backend_role t.browser.storage in
    (t.session.role_id ≡ login_role_id (utf16 "store_manager"))
    × (cur_role (utf16 "East") account t.session.role_id ≡ t.session.role_id)
    × (t.browser.location ≡ (roles (utf16 "East") (login_role_id (utf16 "store_manager"))).home)
    × ((f : Frame) × (shell
            (utf16 "East")
            account
            t.browser.storage.token
            t.session
            t.browser.location
          ≡ frame f))
unfolding start
submit-frame_example =
    submit-frame (utf16 "East") tell (utf16 "full") b't' [] (utf16 "Lin") (utf16 "store_manager")
      at_login refl
