-- ===== src/ServerCase/Tests.antt =====
-- Runs against the table of the backend.
use wachen.Base.{refl, [], ◌∷◌, List, none, some, Text, utf16, Bool, false, ◌≡◌, ◌↔◌, ◌&&◌, true}
use wachen.Domain.{CaseStatus}
use wachen.CaseMachine.{can_transition}
use wachen.Base.Predicates.{Pairs}
use wachen.Api.{Browser, Headers, headers, body, api}
use wachen.Api.Types.{CaseFilters}
use wachen.ServerCase.Backend.{Row, serve, press, status_name}
use wachen.ServerCase.Backend.Laws.{Pressed, press_lem}
use wachen.ServerCase.Backend.History.{Good, asked, here, next, Reach-Good}
use wachen.ServerCase.{ServerStatus, resolved, closed, patch_accepted}
use wachen.ServerCase.Backend.Closing.{Closable, row-Closable}
use wachen.ServerCase.Agreement.{patch_accepted_iff}

patch_accepted_iff_example :
    ((can_transition CaseStatus.open_ CaseStatus.in_progress
        && patch_accepted CaseStatus.open_ CaseStatus.in_progress)
      ≡ true)
    ↔ ((CaseStatus.open_ ≡ CaseStatus.open_) × (CaseStatus.in_progress ≡ CaseStatus.in_progress))
patch_accepted_iff_example = patch_accepted_iff CaseStatus.open_ CaseStatus.in_progress

abbrev soup : Row
soup = record {
  id = utf16 "c1";
  status = ServerStatus.in_progress;
  deleted = false;
  responded_at = none;
}

abbrev steak : Row
steak = record { id = utf16 "c2"; status = closed; deleted = false; responded_at = some 3 }

abbrev rows : List Row
rows = soup ∷ steak ∷ []

abbrev any_token : Text → Bool
any_token t = true

abbrev no_filters : CaseFilters → Text
no_filters f = []

abbrev signed_in : Browser
signed_in = record {
  storage = record { token = some (utf16 "t"); name = none; role = none };
  location = utf16 "/cases/c1";
}

press_lem_example :
    press any_token false 7 no_filters (utf16 "c1") resolved signed_in rows
    ≡ Pressed resolved 7 (utf16 "c1") signed_in soup rows
press_lem_example =
    press_lem any_token 7 no_filters (utf16 "c1") resolved signed_in rows b't' [] soup refl refl
      refl

-- The case was closed by somebody else in the meantime.
too_late :
    (press any_token false 7 no_filters (utf16 "c2") ServerStatus.in_progress signed_in rows).1
    ≡ rows
unfolding press serve api headers body status_name
too_late = refl

abbrev token_headers : Headers
token_headers = (utf16 "Authorization", utf16 "Bearer t") ∷ []

abbrev ask_resolved : List (Text × Text)
ask_resolved = (utf16 "status", utf16 "resolved") ∷ []

Reach-Good_example :
    Pairs Good rows (serve any_token false 7 (utf16 "c1") token_headers ask_resolved rows).1
Reach-Good_example =
    Reach-Good rows (tt, (refl, tt))
      (next here (asked any_token false 7 (utf16 "c1") token_headers ask_resolved rows))

first_answer_set : (serve any_token false 7 (utf16 "c1") token_headers ask_resolved rows).1 ≡ (
    record { id = utf16 "c1"; status = resolved; deleted = false; responded_at = some 7 }
    ∷ steak
    ∷ [])
unfolding serve
first_answer_set = refl

row-Closable_example :
    Closable any_token no_filters (utf16 "c1") signed_in (λ n. n) rows ServerStatus.in_progress
row-Closable_example =
    row-Closable any_token no_filters (utf16 "c1") signed_in b't' [] refl refl (λ n. n) rows soup
      refl
