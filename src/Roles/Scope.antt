-- ===== src/Roles/Scope.antt =====
-- What a role sees, `admin/src/lib/roles.ts`: cases, notifications, stores and personal data.
use wachen.Base.{
  Bool, true, false, not, ◌&&◌, List, [], ◌∷◌, ◌++◌, map, Option, none, some, Text, utf16, text_Eq,
  ◌==◌, if◌then◌else◌, filter, includes, or_else, take, take_right, before, field_after, is_some,
}
use wachen.Domain.{high, risk_Eq}
use wachen.Case.{WaCase, WaStore, Notice}
use wachen.Roles.Table.{Role, external_brands}

-- A text that counts as true: there, and not empty.
abbrev pub truthy : Option Text → Option Text
truthy none = none
truthy (some []) = none
truthy (some (c ∷ t)) = some (c ∷ t)

-- The filters of `scopedCases`, each by what it asks of the role.
abbrev pub filter_brand : Option Text → List WaCase → List WaCase
filter_brand (some b) xs = filter (λ c. c.brand_short == b) xs
filter_brand none xs = filter (λ c. not (includes c.brand_short external_brands)) xs

abbrev pub filter_region : Option Text → List WaCase → List WaCase
filter_region (some g) xs = filter (λ c. c.region == g) xs
filter_region none xs = xs

abbrev pub filter_place : Option Text → Option Text → List WaCase → List WaCase
filter_place (some s) region xs = filter (λ c. c.store == s) xs
filter_place none region xs = filter_region region xs

abbrev pub filter_risk : Bool → List WaCase → List WaCase
filter_risk true xs = filter (λ c. c.risk_level == high) xs
filter_risk false xs = xs

unfoldable pub scoped_cases : Role → List WaCase → List WaCase
scoped_cases r xs =
    let ys = filter_brand (truthy r.brand) xs in
    let zs = filter_place (truthy r.store) (truthy r.region) ys in filter_risk r.risk_only zs

-- The roles that see the notifications of no single case.
abbrev pub is_full : Role → Bool
is_full r =
    not (is_some (truthy r.store))
    && not (is_some (truthy r.region))
    && not r.risk_only
    && not (is_some (truthy r.brand))

-- The test of `scopedNotifications`; `ids` is the set of the ids of the cases in scope.
abbrev pub notice_visible : Bool → List Text → Option Text → Bool
notice_visible full ids none = full
notice_visible full ids (some id) = includes id ids

unfoldable pub scoped_notifications : Role → List WaCase → List Notice → List Notice
unfolding scoped_cases
scoped_notifications r xs ns =
    let ids = map (λ c. c.id) (scoped_cases r xs) in
    filter (λ n. notice_visible (is_full r) ids (truthy n.case_id)) ns

abbrev pub stores_of_brand : Option Text → List WaStore → List WaStore
stores_of_brand (some b) ss = filter (λ s. s.brand_short == b) ss
stores_of_brand none ss = filter (λ s. not (includes s.brand_short external_brands)) ss

abbrev pub stores_of_place : Option Text → Option Text → List WaStore → List WaStore
stores_of_place (some name) region ss = filter (λ s. s.store == name) ss
stores_of_place none (some g) ss = filter (λ s. s.region == g) ss
stores_of_place none none ss = ss

unfoldable pub scoped_stores : Role → List WaStore → List WaStore
scoped_stores r ss =
    stores_of_place (truthy r.store) (truthy r.region) (stores_of_brand (truthy r.brand) ss)

pub data PiiKind : Type 0 where
  phone email name : PiiKind

abbrev pub hidden_phone : Text → Text
hidden_phone v = utf16 "09XX-XXX-" ++ take_right 3 v

-- `split("@")` has at least one part; the second may be missing.
abbrev pub hidden_email : Text → Text
hidden_email v = take 2 (before b'@' v) ++ utf16 "***@" ++ or_else (field_after b'@' v) []

-- mask
unfoldable pub mask : Role → Text → PiiKind → Text
mask r v phone = if r.pii then v else hidden_phone v
mask r v email = if r.pii then v else hidden_email v
mask r v PiiKind.name = if r.pii then v else utf16 "***"
