-- ===== src/Mobile/Tests.antt =====
-- Runs of the mobile client.
use wachen.Base.{
  num_eq, ◌||◌, ◌↔◌, Bool, ◌≡◌, refl, [], ◌∷◌, utf16, Text, none, some, false, List, ==_ne, text_Eq,
  nat_eq, map, Option, get, text_eq, if◌then◌else◌, ltb, length, arith,
}
use mathlib.Core.Option
use wachen.Base.Int.{negsuc}
use wachen.Base.Sort.{IsConsistent}
use wachen.Base.Predicates.{In, All}
use wachen.Domain.{CaseStatus, high, negative, open_, in_progress, closed}
use wachen.Mobile.Domain.{Case}
use wachen.Mobile.Session.{SessionState, sign_in}
use wachen.Mobile.Roles.{cs}
use wachen.Mobile.Mock.{by_id, patched, mock_fetch, update_by_id}
use wachen.Mobile.Queries.{
  Request, login, all_cases, detail, update_status, create_reply, path, send, answers,
}
use wachen.Mobile.Queries.Refinement.{told, replay, look_of, answers-replay}
use wachen.Mobile.Queries.Typed.{IsFormed, IsTyped, IsServed, answers-HasType_iff}
use wachen.Mobile.Client.{Response, Headers}
use wachen.Mobile.Optimistic.{Cache, with_status, relabel, on_mutate, on_error, failed}
use wachen.Mobile.Optimistic.Rollback.{failed_lem, on_error_drops_later}
use wachen.Mobile.Optimistic.Confirmed.{uncounted, relabel-update_by_id}

abbrev app_case : Text → CaseStatus → Case
app_case id s = record {
  id = id;
  risk_level = high;
  status = utf16 "open";
  cstatus = s;
  reopened_count = 0;
  sentiment = negative;
  sentiment_score = negsuc 81;
  rating = 1;
  summary = utf16 "Cold food";
  categories = utf16 "food" ∷ [];
  keywords = utf16 "Cold" ∷ [];
  risk_reasons = [];
  review_content = utf16 "The soup was cold";
  author_name = utf16 "Lin";
  posted_at = utf16 "2026-07-01T10:00:00Z";
  created_at = utf16 "2026-07-01T10:00:00Z";
  sla_due_at = utf16 "2026-07-04T13:06:29Z";
  model_name = utf16 "m";
  prompt_version = utf16 "v1";
  source_url = [];
  store = utf16 "East";
  brand = utf16 "饗X";
  brand_short = utf16 "饗X";
  region = utf16 "North";
  city = utf16 "Taipei";
  store_code = utf16 "E1";
  platform = utf16 "google";
  assignee = [];
  priority = utf16 "P1";
  first_response_min = none;
  resolution_hr = none;
  has_image = false;
  store_reply = none;
  read = none;
}

abbrev app_cases : List Case
app_cases = app_case (utf16 "a1") closed ∷ app_case (utf16 "b2") open_ ∷ []

abbrev session : List Request
session = login ∷ update_status (utf16 "a1") open_ ∷ detail (utf16 "a1") ∷ all_cases ∷ []

a1_there : by_id (utf16 "a1") app_cases ≡ some (app_case (utf16 "a1") closed)
unfolding by_id
a1_there = refl

-- A pathname without what follows a question mark or a hash sign.
abbrev before_query : Text → Text
before_query [] = []
before_query (c ∷ t) =
    let rest = before_query t in if num_eq c b'?' || num_eq c b'#' then [] else c ∷ rest

session-IsFormed : All (IsFormed before_query) session
unfolding path
session-IsFormed =
    ((tt, refl), (((==_ne refl, refl), refl), (((==_ne refl, refl), refl), ((tt, refl), tt))))

answers-HasType_iff_example :
    All (λ x. IsTyped x ↔ IsServed app_cases x.0) (answers before_query open_ session app_cases)
answers-HasType_iff_example =
    answers-HasType_iff before_query open_ session app_cases session-IsFormed

-- The app has no offline answer to a reply.
no_reply : (send before_query open_ (create_reply (utf16 "a1") (utf16 "Sorry")) app_cases).0 ≡ none
unfolding send path mock_fetch
no_reply = refl

-- A server that knows one path, for those who are signed in.
abbrev server : Text → Headers → Option (Response Text)
server path hs = elim (get (utf16 "Authorization") hs) [
  | none ↦ some (record { status = 401; text = []; json = none })
  | some _ ↦ some (record { status = 200; text = utf16 "ok"; json = some path })
]

abbrev signed_in : SessionState
signed_in = sign_in (utf16 "t") cs wachen.Mobile.Session.initial

abbrev cache : Cache
cache = record {
  cases = some app_cases;
  details = (utf16 "a1", app_case (utf16 "a1") closed) ∷ [];
  invalidated = [];
}

failed_lem_example :
    ((failed (utf16 "a1") open_ cache).cases ≡ some app_cases)
    × (get (utf16 "a1") (failed (utf16 "a1") open_ cache).details ≡ (
        if text_eq (utf16 "a1") (utf16 "a1")
        then Option.map (with_status open_) (get (utf16 "a1") cache.details)
        else get (utf16 "a1") cache.details))
    × In (utf16 "cases" ∷ utf16 "a1" ∷ []) (failed (utf16 "a1") open_ cache).invalidated
failed_lem_example = failed_lem (utf16 "a1") (utf16 "a1") open_ cache

on_error_drops_later_example :
    let one = on_mutate (utf16 "a1") open_ cache in
    let two = on_mutate (utf16 "b2") in_progress one.0 in
    ((on_error one.1 two.0).cases ≡ some app_cases)
    × (two.0.cases ≡ some (relabel (utf16 "b2") in_progress (relabel (utf16 "a1") open_ app_cases)))
on_error_drops_later_example =
    on_error_drops_later (utf16 "a1") (utf16 "b2") open_ in_progress app_cases cache refl

relabel-update_by_id_example :
    map uncounted (update_by_id (utf16 "a1") (patched open_) app_cases)
    ≡ map uncounted (relabel (utf16 "a1") open_ app_cases)
relabel-update_by_id_example =
    relabel-update_by_id (utf16 "a1") open_ app_cases ((==_ne refl, tt), (tt, tt))

-- An order on texts: the shorter first.
abbrev shorter : Text → Text → Bool
shorter a b = ltb (length a) (length b)

shorter-IsConsistent : IsConsistent shorter
shorter-IsConsistent = record { asym = λ a b h. ground arith; cotrans = λ a b c h k. ground arith }

abbrev same_case : Text → Text
same_case t = t

answers-replay_example :
    map (λ x. (x.0, told x.1)) (answers before_query open_ session app_cases)
    ≡ replay session (look_of app_cases)
answers-replay_example = answers-replay before_query open_ session app_cases session-IsFormed
