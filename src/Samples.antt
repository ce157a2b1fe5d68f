-- ===== src/Samples.antt =====
-- A few cases, notifications and stores, for the runs in the modules of tests.
use wachen.Base.{Text, utf16, List, [], ◌∷◌, none, some, false, true}
use wachen.Base.Int.{negsuc}
use wachen.Domain.{RiskLevel, high, medium, negative, CaseStatus, open_, closed}
use wachen.Case.{RawCase, WaCase, Notice, critical, warning}

abbrev raw_case : Text → RiskLevel → Text → Text → RawCase
raw_case id risk brand posted = record {
  id = id;
  risk_level = risk;
  status = utf16 "open";
  reopened_count = 0;
  sentiment = negative;
  sentiment_score = some (negsuc 81);
  rating = 1;
  summary = utf16 "Cold food";
  categories = utf16 "food" ∷ utf16 "service" ∷ [];
  keywords = utf16 "Cold" ∷ [];
  risk_reasons = utf16 "health" ∷ [];
  review_content = utf16 "The soup was cold";
  author_name = utf16 "Lin";
  posted_at = posted;
  created_at = posted;
  sla_due_at = utf16 "2026-07-04T13:06:29Z";
  assignments = [];
  notifications = [];
  model_name = utf16 "m";
  prompt_version = utf16 "v1";
  source_url = [];
  store = utf16 "East";
  brand = brand;
  brand_short = brand;
  region = utf16 "North";
  city = utf16 "Taipei";
  store_code = utf16 "E1";
  platform = utf16 "google";
  assignee = [];
  priority = utf16 "P1";
  weekday = 6;
  hour = 13;
  is_peak = false;
  is_weekend = true;
  first_response_min = none;
  resolution_hr = none;
  has_image = false;
  store_reply = none;
}

abbrev pub soup : RawCase
soup = raw_case (utf16 "3f00aa") high (utf16 "饗X") (utf16 "2026-07-01T10:00:00Z")

abbrev pub steak : RawCase
steak = raw_case (utf16 "120b77") medium (utf16 "燦X") (utf16 "2026-06-15T10:00:00Z")

abbrev pub raws : List RawCase
raws = soup ∷ steak ∷ []

abbrev client_case : CaseStatus → RawCase → WaCase
client_case s r = record {
  raw = r;
  cstatus = s;
  code = utf16 "C-1";
  read = false;
  escalated = false;
}

abbrev pub open_soup : WaCase
open_soup = client_case open_ soup

abbrev pub closed_steak : WaCase
closed_steak = client_case closed steak

abbrev pub both : List WaCase
both = open_soup ∷ closed_steak ∷ []

abbrev pub about_soup : Notice
about_soup = record {
  id = utf16 "n1";
  type = utf16 "risk";
  channel = utf16 "web";
  title = utf16 "Risk";
  body = [];
  case_id = some (utf16 "3f00aa");
  time = utf16 "10:00";
  read = false;
  level = critical;
}

abbrev pub about_nothing : Notice
about_nothing = record about_soup { id = utf16 "n2"; case_id = none; level = warning }
