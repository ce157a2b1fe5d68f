-- ===== src/Roles/Visible.antt =====
-- Exactly what a role sees.
use wachen.Base.{
  ◌≡◌, ◌↔◌, Bool, true, false, not, List, map, Option, none, some, Text, text_Eq, text_eq_iff,
  arith, includes,
}
use wachen.Base.Predicates.{In, In-filter_iff, includes_iff}
use wachen.Domain.{RiskLevel, high, risk_eq_iff}
use wachen.Case.{WaCase, Notice}
use wachen.Roles.Table.{Role, external_brands}
use wachen.Roles.Scope.{
  truthy, filter_brand, filter_place, filter_risk, scoped_cases, is_full, notice_visible,
  scoped_notifications,
}

not_iff : (b : Bool) → (not b ≡ true) ↔ (b ≡ false)
not_iff b = ground arith

-- The tenant of a role: its own brand, or every brand that is not an external one.
abbrev pub OfBrand : Option Text → Text → Type 0
OfBrand (some b) brand = brand ≡ b
OfBrand none brand = includes brand external_brands ≡ false

-- The place of a role: its store, or else its region, or everywhere.
abbrev pub OfPlace : Option Text → Option Text → Text → Text → Type 0
OfPlace (some s) region at_store at_region = at_store ≡ s
OfPlace none (some g) at_store at_region = at_region ≡ g
OfPlace none none at_store at_region = Unit

abbrev pub OfRisk : Bool → RiskLevel → Type 0
OfRisk true risk = risk ≡ high
OfRisk false risk = Unit

filter_brand_iff :
    (o : Option Text) (c : WaCase) (xs : List WaCase)
    → In c (filter_brand o xs) ↔ (In c xs × OfBrand o c.brand_short)
filter_brand_iff (some b) c xs = In-filter_iff _ _ (λ d. text_eq_iff d.brand_short b) c xs
filter_brand_iff none c xs =
    In-filter_iff _ _ (λ d. not_iff (includes d.brand_short external_brands)) c xs

filter_place_iff :
    (s g : Option Text) (c : WaCase) (xs : List WaCase)
    → In c (filter_place s g xs) ↔ (In c xs × OfPlace s g c.store c.region)
filter_place_iff (some s) g c xs = In-filter_iff _ _ (λ d. text_eq_iff d.store s) c xs
filter_place_iff none (some g) c xs = In-filter_iff _ _ (λ d. text_eq_iff d.region g) c xs
filter_place_iff none none c xs = (λ m. (m, tt), λ h. h.0)

filter_risk_iff :
    (b : Bool) (c : WaCase) (xs : List WaCase)
    → In c (filter_risk b xs) ↔ (In c xs × OfRisk b c.risk_level)
filter_risk_iff true c xs = In-filter_iff _ _ (λ d. risk_eq_iff d.risk_level high) c xs
filter_risk_iff false c xs = (λ m. (m, tt), λ h. h.0)

-- What a role may see of the cases.
pub record InScope (r : Role) (c : WaCase) : Type 0 where
  pub brand : OfBrand (truthy r.brand) c.brand_short
  pub place : OfPlace (truthy r.store) (truthy r.region) c.store c.region
  pub risk : OfRisk r.risk_only c.risk_level

-- A role sees exactly the cases of its tenant (its own brand, or else all but the external brands)
-- that lie in its store or else its region, if it has one, and are of high risk, if it sees only
-- those.
pub scoped_cases_iff :
    (r : Role) (c : WaCase) (xs : List WaCase) → In c (scoped_cases r xs) ↔ (In c xs × InScope r c)
unfolding scoped_cases
scoped_cases_iff r c xs =
    let brands = filter_brand_iff (truthy r.brand) c xs in
    let ys = filter_brand (truthy r.brand) xs in
    let places = filter_place_iff (truthy r.store) (truthy r.region) c ys in
    let zs = filter_place (truthy r.store) (truthy r.region) ys in
    let risks = filter_risk_iff r.risk_only c zs in
    (
      λ m.
          let (in_zs, risk) = risks.0 m in
          let (in_ys, place) = places.0 in_zs in
          let (in_xs, brand) = brands.0 in_ys in
          (in_xs, record { brand = brand; place = place; risk = risk }),
      λ h. risks.1 (places.1 (brands.1 (h.0, h.1.brand), h.1.place), h.1.risk),
    )

-- A notification is visible where it stands for a case in scope, or for no case at all and the role
-- sees everything of the group.
abbrev NoticeInScope : Role → List WaCase → Option Text → Type 0
NoticeInScope r xs none = is_full r ≡ true
NoticeInScope r xs (some id) = In id (map (λ c. c.id) (scoped_cases r xs))

notice_visible_iff :
    (r : Role) (xs : List WaCase) (o : Option Text)
    → (notice_visible (is_full r) (map (λ c. c.id) (scoped_cases r xs)) o ≡ true)
      ↔ NoticeInScope r xs o
notice_visible_iff r xs none = (λ e. e, λ e. e)
notice_visible_iff r xs (some id) = includes_iff id (map (λ c. c.id) (scoped_cases r xs))

-- A role sees exactly those notifications that stand for a case that it sees; one that stands for no
-- case it sees only if it is restricted to no store, region, risk or brand.
scoped_notifications_iff :
    (r : Role) (xs : List WaCase) (n : Notice) (ns : List Notice)
    → In n (scoped_notifications r xs ns) ↔ (In n ns × NoticeInScope r xs (truthy n.case_id))
unfolding scoped_notifications
scoped_notifications_iff r xs n ns =
    In-filter_iff _ _ (λ m. notice_visible_iff r xs (truthy m.case_id)) n ns
