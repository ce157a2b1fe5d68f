-- ===== src/Pages/Settings/Tests.antt =====
-- Runs of the pages of settings.
use wachen.Base.{◌≡◌, refl, ◌↔◌, [], ◌∷◌, some, true, false, utf16}
use wachen.Domain.{high}
use wachen.Db.{absent, start}
use wachen.Roles.Table.{Role, roles, pr}
use wachen.Roles.Session.{RoleState, sync_role}
use wachen.Shell.{redirect, shell}
use wachen.Pages.Settings.{Rules, RulesView, rules_page, rule_badge, shows, refuses}
use wachen.Pages.Settings.Access.{settings-shell}
use wachen.Pages.Org.{OrgTree, OrgRole, join_names, perms, org_page}
use wachen.Samples.{raws}

abbrev rules : Rules
rules = record {
  dispatch =
      record {
        cond = utf16 "food";
        target = utf16 "chef";
        sla = utf16 "4h";
        notify = utf16 "mail";
        escalate = utf16 "manager";
        on = false;
      }
      ∷ [];
  sla = [];
  ai_categories = [];
}

abbrev tree : OrgTree
tree = record {
  group = utf16 "Feast";
  brands = utf16 "Noodle House" ∷ utf16 "Grill" ∷ [];
  regions = utf16 "North" ∷ [];
  stores = 2;
  people = 7;
}

abbrev clerk : OrgRole
clerk = record {
  role = utf16 "clerk";
  scope = utf16 "store";
  pii = false;
  ai = false;
  assign = true;
  close = true;
  export = false;
  rules = false;
}

names : join_names (utf16 "A" ∷ utf16 "B" ∷ []) ≡ utf16 "A、B"
names = refl

badge : rule_badge (utf16 "高風險") ≡ high
unfolding rule_badge
badge = refl

marks : perms clerk ≡ (false ∷ false ∷ true ∷ true ∷ false ∷ false ∷ [])
unfolding perms
marks = refl

-- The account of public relations.
abbrev at_pr : RoleState
at_pr = record { app = start absent false raws []; role_id = pr; role_key = some (utf16 "pr") }

abbrev synced : RoleState
synced = sync_role [] (utf16 "pr_legal") at_pr

abbrev now : Role
now = roles [] synced.role_id

settings-shell_example :
    ((rules_page now rules ≡ refuses now.title) ↔ (
      shell [] (utf16 "pr_legal") (some (utf16 "t")) synced (utf16 "/rules") ≡ redirect now.home))
    × ((org_page now tree (clerk ∷ []) ≡ refuses now.title) ↔ (
        shell [] (utf16 "pr_legal") (some (utf16 "t")) synced (utf16 "/org") ≡ redirect now.home))
settings-shell_example = settings-shell [] (utf16 "pr_legal") b't' [] at_pr rules tree (clerk ∷ [])

refused : rules_page now rules ≡ refuses now.title
unfolding rules_page wachen.Pages.Settings.guarded roles sync_role start
refused = refl
