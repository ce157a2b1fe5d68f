-- ===== src/Pages/Sla.antt =====
-- `admin/src/pages/SlaMonitor.tsx`: overdue cases, those that are due within the hour, the averages of
-- the brands and the rows of the table. Rates are whole numbers, so an average is rounded exactly.
use wachen.Base.{
  ℕ, ◌+◌, ◌*◌, ◌/◌, Bool, false, ◌&&◌, List, [], ◌∷◌, ◌++◌, map, Option, none, some, or_else, Text,
  text_Eq, String, if◌then◌else◌, ltb, leb, filter, take, get, put,
}
use wachen.Base.Sort.{sort}
use wachen.Time.{parse}
use wachen.Domain.{RiskLevel, high, medium, is_active}
use wachen.Case.{WaCase, WaStore}
use wachen.Filter.Admin.{is_past}

-- `d >= 0 && d < 3.6e6`, for `d = Date.parse(due) - Date.now()`
abbrev pub is_soon : Option ℕ → ℕ → Bool
is_soon none now = false
is_soon (some t) now = leb now t && ltb t (now + 3600000)

unfoldable pub active : List WaCase → List WaCase
active cs = filter (λ c. is_active c.cstatus) cs

unfoldable pub overdue : ℕ → List WaCase → List WaCase
unfolding active
overdue now cs = filter (λ c. is_past (parse c.sla_due_at) now) (active cs)

unfoldable pub soon : ℕ → List WaCase → List WaCase
unfolding active
soon now cs = filter (λ c. is_soon (parse c.sla_due_at) now) (active cs)

-- `{ sum, n }`
pub record Rates : Type 0 where
  pub sum : ℕ
  pub n : ℕ

abbrev pub no_rates : Rates
no_rates = record { sum = 0; n = 0 }

unfoldable pub brand_rates : List (Text × Rates) → List WaStore → List (Text × Rates)
brand_rates m [] = m
brand_rates m (s ∷ ss) =
    let e = or_else (get s.brand m) no_rates in
    brand_rates (put s.brand (record { sum = e.sum + s.sla_rate; n = e.n + 1 }) m) ss

-- `Math.round(v.sum / v.n)`, which rounds a half up.
abbrev pub rounded : Rates → ℕ
rounded v = (2 * v.sum + v.n) / (2 * v.n)

unfoldable pub by_brand : List WaStore → List (Text × ℕ)
unfolding brand_rates sort
by_brand ss = sort (λ a b. ltb a.1 b.1) (map (λ e. (e.0, rounded e.1)) (brand_rates [] ss))

pub record Row : Type 0 where
  pub case : WaCase
  pub level : RiskLevel
  pub label : String

unfoldable pub row : ℕ → WaCase → Row
row now c =
    let late = is_past (parse c.sla_due_at) now in
    record {
      case = c;
      level = if late then high else medium;
      label = if c.escalated then "已升級" else if late then "已逾期" else "即將逾期";
    }

unfoldable pub rows : ℕ → List WaCase → List Row
unfolding overdue soon row
rows now cs = map (row now) (take 60 (overdue now cs ++ soon now cs))
