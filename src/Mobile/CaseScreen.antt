-- ===== src/Mobile/CaseScreen.antt =====
-- `mobile/app/case/[id].tsx`: the screen of a case, for the role of the session and the state of the
-- mutation. The countdown to the deadline is a component of its own.
pub mod Safety
use mathlib.Core.Option
use wachen.Base.{
  ℕ, ◌-◌, Bool, true, false, List, [], ◌∷◌, ◌++◌, map, Option, none, some, Text, utf16, String,
  if◌then◌else◌, ltb, take, is_empty,
}
use wachen.Domain.{CaseStatus}
use wachen.CaseMachine.{Transition, TransitionStyle, primary, ok, plain, case_transitions}
use wachen.Roles.Scope.{PiiKind}
use wachen.Mobile.Domain.{Case}
use wachen.Mobile.Roles.{Role, mask_pii}
use wachen.Mobile.CaseItem.{Chip, risk_badge, status_pill}

-- `xs.join("、")`
abbrev pub listed : List Text → Text
listed [] = []
listed (x ∷ []) = x
listed (x ∷ y ∷ xs) = x ++ utf16 "、" ++ listed (y ∷ xs)

-- `xs.join("、") || "—"`
abbrev pub listed_or_dash : List Text → Text
listed_or_dash xs = if is_empty (listed xs) then utf16 "—" else listed xs

-- A button, with the colours that its style gives it.
pub record Button : Type 0 where
  pub to : CaseStatus
  pub label : String
  pub ground : String
  pub ink : String
  pub border : Bool
  pub disabled : Bool

abbrev ground_of : TransitionStyle → String
ground_of primary = "s1"
ground_of ok = "good"
ground_of plain = "surface"

abbrev is_plain : TransitionStyle → Bool
is_plain plain = true
is_plain _ = false

unfoldable pub button : Bool → Transition → Button
button pending tr = record {
  to = tr.to;
  label = tr.label;
  ground = ground_of tr.style;
  ink = if is_plain tr.style then "ink2" else "#fff";
  border = is_plain tr.style;
  disabled = pending;
}

pub record CaseScreen : Type 0 where
  pub title : Text
  pub risk : Chip
  pub status : Chip
  pub stars : ℕ
  pub off_stars : ℕ
  pub source : Text
  pub content : Text
  pub customer : Text
  pub summary : Text
  pub categories : Text
  pub keywords : Text
  pub risk_reasons : Text
  pub model : Text
  pub store : Text
  pub assignee : Text
  pub reopened : Option ℕ
  pub buttons : List Button

unfoldable pub screen_of : (Text → Text) → Role → Bool → Case → CaseScreen
unfolding case_transitions button mask_pii risk_badge status_pill
screen_of upper role pending c = record {
  title = utf16 "C-" ++ upper (take 6 c.id);
  risk = risk_badge c.risk_level;
  status = status_pill c.cstatus;
  stars = c.rating;
  off_stars = 5 - c.rating;
  source = c.platform ++ utf16 " · " ++ take 10 c.posted_at;
  content = c.review_content;
  customer = mask_pii role c.author_name PiiKind.name;
  summary = c.summary;
  categories = listed_or_dash c.categories;
  keywords = listed_or_dash c.keywords;
  risk_reasons = listed_or_dash c.risk_reasons;
  model = c.model_name ++ utf16 " · " ++ c.prompt_version;
  store = c.store;
  assignee = c.assignee;
  reopened = if ltb 0 c.reopened_count then some c.reopened_count else none;
  buttons = map (button pending) (case_transitions c.cstatus);
}

-- CaseDetail; `none` is 「載入中…」.
unfoldable pub case_screen : (Text → Text) → Role → Bool → Option Case → Option CaseScreen
unfolding screen_of
case_screen upper role pending c = Option.map (screen_of upper role pending) c

-- What `onPress` of a button passes to `update.mutate`; a disabled button does nothing.
unfoldable pub press : Button → Case → Option (Text × CaseStatus)
press b c = if b.disabled then none else some (c.id, b.to)
