-- ===== src/Mobile/ScreenTests.antt =====
-- Runs of the screens of the mobile client.
use wachen.Base.{
  ◌↔◌, ◌≡◌, refl, [], ◌∷◌, utf16, Text, none, some, true, false, ==_ne, text_Eq, nat_eq,
}
use wachen.Base.Int.{negsuc}
use wachen.Base.Predicates.{All}
use wachen.Domain.{CaseStatus, high, negative, in_progress, done, status_Eq}
use wachen.Mobile.Domain.{Case}
use wachen.Mobile.Roles.{RoleId, Role, roles}
use wachen.Base.Strip.{without}
use wachen.Mobile.CaseItem.{default}
use wachen.Mobile.KpiCard.{kpi_tile}
use wachen.Mobile.CaseScreen.{screen_of, listed}
use wachen.Mobile.Mock.{by_id}
use wachen.Mobile.Optimistic.{Cache}
use wachen.Mobile.Journey.{Works, buttons-Works}
use wachen.Mobile.CaseScreen.Safety.{Asks, screen-Asks_iff, screen-author_name}
use wachen.CaseMachine.Graph.{◌⟶◌}

abbrev app_case : CaseStatus → Case
app_case s = record {
  id = utf16 "a1";
  risk_level = high;
  status = utf16 "open";
  cstatus = s;
  reopened_count = 1;
  sentiment = negative;
  sentiment_score = negsuc 81;
  rating = 1;
  summary = utf16 "Cold food";
  categories = utf16 "food" ∷ utf16 "service" ∷ [];
  keywords = [];
  risk_reasons = [];
  review_content = utf16 "The soup was cold";
  author_name = utf16 "Lin";
  posted_at = utf16 "2026-07-01T10:00:00Z";
  created_at = utf16 "2026-07-01T10:00:00Z";
  sla_due_at = utf16 "2026-07-04T13:06:29Z";
  model_name = utf16 "m";
  prompt_version = utf16 "v1";
  source_url = [];
  store = utf16 "East";
  brand = utf16 "饗X";
  brand_short = utf16 "饗X";
  region = utf16 "North";
  city = utf16 "Taipei";
  store_code = utf16 "E1";
  platform = utf16 "google";
  assignee = [];
  priority = utf16 "P1";
  first_response_min = none;
  resolution_hr = none;
  has_image = false;
  store_reply = none;
  read = none;
}

abbrev as_is : Text → Text
as_is t = t

abbrev keeper : Role
keeper = roles RoleId.store

keeper-pii : keeper.pii ≡ false
unfolding roles
keeper-pii = refl

joined : listed (utf16 "food" ∷ utf16 "service" ∷ []) ≡ utf16 "food、service"
joined = refl

place : without (utf16 "X") (utf16 "X - East") ≡ utf16 " - East"
place = refl

screen-Asks_iff_example :
    Asks
      (app_case in_progress)
      (screen_of as_is keeper false (app_case in_progress)).buttons
      (utf16 "a1")
      done
    ↔ ((false ≡ false) × (utf16 "a1" ≡ utf16 "a1") × (in_progress ⟶ done))
screen-Asks_iff_example =
    screen-Asks_iff as_is keeper false (app_case in_progress) (utf16 "a1") done

screen-author_name_example :
    screen_of as_is keeper false (record (app_case in_progress) { author_name = utf16 "Lin" })
    ≡ screen_of as_is keeper false (record (app_case in_progress) { author_name = utf16 "Wu" })
screen-author_name_example =
    screen-author_name as_is keeper false (app_case in_progress) (utf16 "Lin") (utf16 "Wu")
      keeper-pii

abbrev shown_case : Case
shown_case = app_case in_progress

abbrev in_cache : Cache
in_cache = record { cases = none; details = (utf16 "a1", shown_case) ∷ []; invalidated = [] }

a1_there : by_id (utf16 "a1") (shown_case ∷ []) ≡ some shown_case
unfolding by_id
a1_there = refl

buttons-Works_example :
    All
      (Works as_is keeper shown_case as_is in_progress (shown_case ∷ []) in_cache)
      (screen_of as_is keeper false shown_case).buttons
buttons-Works_example =
    buttons-Works as_is keeper shown_case as_is in_progress (shown_case ∷ []) in_cache
      (==_ne refl, refl) refl refl a1_there refl

-- The tile of an average that has gone down by three tenths.
lower_tile :
    (kpi_tile (record {
      value = utf16 "4.32";
      unit = none;
      label = utf16 "平均評分";
      sub = some [];
      delta = some (negsuc 2);
      delta_unit = [];
      tone = default;
      synthetic = true;
      to = none;
    })).change
    ≡ some (record { color = "critical"; arrow = "▼"; size = 3; unit = [] })
unfolding kpi_tile
lower_tile = refl
