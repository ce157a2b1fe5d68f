-- ===== src/Mobile/Facets.antt =====
-- What the screens of the mobile client read: the facets of `mobile/src/api/queries.ts`, and the two
-- queries with their `select`, which cuts the data to the role. Without data, a query gives `none`.
use mathlib.Core.Option
use wachen.Base.{ℕ, List, Option, Text}
use wachen.Case.{Notice}
use wachen.Pages.Tasks.{Task}
use wachen.Mobile.Domain.{Case, Store}
use wachen.Mobile.Roles.{Role, scope_cases, scope_stores}

pub record DataSource : Type 0 where
  pub name : Text
  pub type : Text
  pub status : Text
  pub sync : Text
  pub last : Text
  pub rows : ℕ
  pub err : ℕ

-- MonthlyPoint; the rating is in tenths.
pub record MonthlyPoint : Type 0 where
  pub month : Text
  pub reviews : ℕ
  pub neg : ℕ
  pub avg_rating : ℕ

-- Kpis
pub record Kpis : Type 0 where
  pub new_reviews : ℕ
  pub sla_rate : ℕ
  pub first_resp_min : ℕ
  pub resolve_hr : ℕ
  pub revisit_rate : ℕ

-- The parts of Agg that the screens read.
pub record Agg : Type 0 where
  pub monthly : List MonthlyPoint
  pub category : List (Text × ℕ)
  pub kpis : Kpis

-- The parts of Facets that the screens read.
pub record Facets : Type 0 where
  pub stores : List Store
  pub agg : Agg
  pub tasks : List Task
  pub notifications : List Notice
  pub sources : List DataSource

-- `select` of useCases
unfoldable pub use_cases : Role → Option (List Case) → Option (List Case)
unfolding scope_cases
use_cases role answer = Option.map (scope_cases role) answer

abbrev pub cut_facets : Role → Facets → Facets
cut_facets role f = record f { stores = scope_stores role f.stores }

-- `select` of useFacets
unfoldable pub use_facets : Role → Option Facets → Option Facets
unfolding scope_stores
use_facets role answer = Option.map (cut_facets role) answer
