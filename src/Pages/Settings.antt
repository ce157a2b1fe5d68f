-- ===== src/Pages/Settings.antt =====
-- The pages of settings of the admin client, `Rules.tsx`, `Org.tsx`, `Sources.tsx` and `Reports.tsx` of
-- `admin/src/pages`. The data are those of `WaDB` in `admin/src/lib/db.ts`.
pub mod Access
mod Tests
use wachen.Base.{
  ◌≡◌, refl, ℕ, Bool, true, false, List, [], ◌∷◌, ◌++◌, map, Option, none, some, or_else, is_some,
  Text, utf16, String, text_Eq, ◌==◌, if◌then◌else◌, take, ltb, length, num_eq,
}
use wachen.Domain.{RiskLevel, high, medium, low}
use wachen.Roles.Table.{Role}
use wachen.Charts.{BarRow, Bar, bar_chart}
use wachen.Drawer.StoreDrawer.{colored_from}

-- A page that needs `role.rules`: what it shows, or the title of the role that may not see it.
pub data Guarded (A : Type 0) : Type 0 where
  shows : A → Guarded A
  refuses : String → Guarded A

unfoldable pub guarded : {A : Type 0} → Role → A → Guarded A
guarded role page = if role.rules then shows page else refuses role.title

-- The badge of a rule for deadlines, by the name of its risk.
unfoldable pub rule_badge : Text → RiskLevel
rule_badge r = if r == utf16 "高風險" then high else if r == utf16 "中風險" then medium else low

pub record Badge : Type 0 where
  pub level : RiskLevel
  pub label : Text

-- A rule of dispatch as the data have it, and its row.
pub record Dispatch : Type 0 where
  pub cond : Text
  pub target : Text
  pub sla : Text
  pub notify : Text
  pub escalate : Text
  pub on : Bool

pub record DispatchRow : Type 0 where
  pub cond : Text
  pub target : Text
  pub sla : Text
  pub notify : Text
  pub escalate : Text
  pub state : Badge

unfoldable pub dispatch_row : Dispatch → DispatchRow
dispatch_row d = record {
  cond = d.cond;
  target = d.target;
  sla = d.sla;
  notify = d.notify;
  escalate = d.escalate;
  state = record {
    level = if d.on then low else medium;
    label = if d.on then utf16 "啟用" else utf16 "停用";
  };
}

-- A rule for deadlines, and its row.
pub record Deadline : Type 0 where
  pub risk : Text
  pub first : Text
  pub resolve : Text
  pub remind : Text
  pub notify : Text
  pub calc : Text

pub record DeadlineRow : Type 0 where
  pub risk : Badge
  pub first : Text
  pub resolve : Text
  pub remind : Text
  pub notify : Text
  pub calc : Text

unfoldable pub deadline_row : Deadline → DeadlineRow
unfolding rule_badge
deadline_row s = record {
  risk = record { level = rule_badge s.risk; label = s.risk };
  first = s.first;
  resolve = s.resolve;
  remind = s.remind;
  notify = s.notify;
  calc = s.calc;
}

-- A category of the classifier, and its row.
pub record Category : Type 0 where
  pub name : Text
  pub count : ℕ
  pub weight : Text
  pub keywords : List Text

pub record CategoryRow : Type 0 where
  pub name : Text
  pub count : ℕ
  pub weight : Badge
  pub keywords : List Text
  pub state : Badge

unfoldable pub category_row : Category → CategoryRow
category_row c = record {
  name = c.name;
  count = c.count;
  weight = record {
    level = if c.weight == utf16 "高" then high else if c.weight == utf16 "中" then medium else low;
    label = c.weight;
  };
  keywords = c.keywords;
  state = record { level = low; label = utf16 "啟用" };
}

pub record Rules : Type 0 where
  pub dispatch : List Dispatch
  pub sla : List Deadline
  pub ai_categories : List Category

pub record RulesView : Type 0 where
  pub dispatch : List DispatchRow
  pub sla : List DeadlineRow
  pub categories : List CategoryRow

unfoldable pub rules_page : Role → Rules → Guarded RulesView
unfolding guarded dispatch_row deadline_row category_row
rules_page role r = guarded role (record {
  dispatch = map dispatch_row r.dispatch;
  sla = map deadline_row r.sla;
  categories = map category_row r.ai_categories;
})
