-- ===== src/Roles/Tests.antt =====
-- Runs of the roles.
use wachen.Base.{◌≡◌, ◌↔◌, ◌≢◌, refl, [], ◌∷◌, inl, utf16, Text, none, some, false}
use wachen.Base.Predicates.{In}
use wachen.Roles.Table.{hq, store, pr, tk, roles}
use wachen.Roles.Session.{RoleState, allowed_role_ids, login_role_id, cur_role}
use wachen.Roles.Scope.{scoped_cases}
use wachen.Roles.Visible.{InScope, scoped_cases_iff}
use wachen.Roles.Tenant.{shown_role, tenants_apart}
use wachen.Db.{absent, start}
use wachen.Samples.{raws, open_soup, both}

abbrev first : Text
first = utf16 "East"

abbrev admin : Text
admin = utf16 "admin"

abbrev tenant : Text
tenant = utf16 "tsannkuen"

-- The role of a tenant was left in the storage by another account.
abbrev left_over : RoleState
left_over = record { app = start absent false raws []; role_id = tk; role_key = some (utf16 "tk") }

abbrev kept_role : RoleState
kept_role = record { app = start absent false raws []; role_id = hq; role_key = none }

head_office_sees : scoped_cases (roles first hq) both ≡ (open_soup ∷ [])
unfolding scoped_cases roles
head_office_sees = refl

scoped_cases_iff_example :
    In open_soup (scoped_cases (roles first pr) both)
    ↔ (In open_soup both × InScope (roles first pr) open_soup)
scoped_cases_iff_example = scoped_cases_iff (roles first pr) open_soup both

other_brand : (roles first (login_role_id admin)).brand ≢ (roles first (login_role_id tenant)).brand
unfolding roles login_role_id
other_brand p = cc

admin_sees : In open_soup (scoped_cases (shown_role first admin left_over) both)
unfolding scoped_cases roles wachen.Roles.Session.sync_role start
admin_sees = inl refl

tenants_apart_example : ¬ In open_soup (scoped_cases (shown_role first tenant kept_role) both)
tenants_apart_example =
    tenants_apart first admin tenant left_over kept_role open_soup both both other_brand admin_sees

no_pii : (roles first store).pii ≡ false
unfolding roles
no_pii = refl
