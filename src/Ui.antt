-- ===== src/Ui.antt =====
-- The parts that the pages of the admin client are made of, `admin/src/components/ui.tsx`. What a part is
-- given as a node is text here; `digits` is `String` of a number.
mod Tests
use wachen.Base.{
  ℕ, ◌+◌, ◌-◌, Bool, true, false, List, [], ◌∷◌, ◌++◌, Option, none, some, or_else, is_some, Text,
  utf16, String, if◌then◌else◌, ltb, is_empty, text_Eq, ◌==◌,
}
use wachen.Base.Int.{ℤ, pos, negsuc}
use wachen.Domain.{RiskLevel, high, medium, low, risk_label, CaseStatus, case_status_label}

-- The props of Kpi that are not styles alone.
pub record KpiProps : Type 0 where
  pub v : Text
  pub unit : Text
  pub l : Text
  pub s : Text
  pub delta : Option ℤ
  pub delta_unit : Text
  pub cls : Text
  pub synth : Bool
  pub goes : Bool

-- The line of the change: its class, its arrow and its size.
pub record DeltaLine : Type 0 where
  pub cls : String
  pub arrow : String
  pub size : ℕ
  pub unit : Text

pub record KpiView : Type 0 where
  pub cls : Text
  pub v : Text
  pub unit : Option Text
  pub simulated : Bool
  pub label : Text
  pub delta : Option DeltaLine
  pub sub : Option Text

-- `delta >= 0` and `Math.abs(delta)`
unfoldable pub delta_line : Text → ℤ → DeltaLine
delta_line unit (pos n) = record { cls = "up"; arrow = "▲"; size = n; unit = unit }
delta_line unit (negsuc n) = record { cls = "down"; arrow = "▼"; size = n + 1; unit = unit }

abbrev delta_of : Text → Option ℤ → Option DeltaLine
delta_of unit none = none
delta_of unit (some d) = some (delta_line unit d)

abbrev shown : Text → Option Text
shown [] = none
shown (c ∷ s) = some (c ∷ s)

-- Kpi
unfoldable pub kpi : KpiProps → KpiView
unfolding delta_line
kpi p = record {
  cls = utf16 "kpi " ++ (p.cls ++ (utf16 " " ++ (if p.goes then utf16 "click" else [])));
  v = p.v;
  unit = shown p.unit;
  simulated = p.synth;
  label = p.l;
  delta = delta_of p.delta_unit p.delta;
  sub = shown p.s;
}

pub record Badge : Type 0 where
  pub cls : Text
  pub label : Text

unfoldable pub risk_name : RiskLevel → Text
risk_name high = utf16 "high"
risk_name medium = utf16 "medium"
risk_name low = utf16 "low"

-- `RISK_LABEL[level]`, for a level that is any text.
unfoldable pub label_of : Text → Option Text
unfolding risk_label
label_of level =
    if level == utf16 "high"
    then some (utf16 (risk_label high))
    else if level == utf16 "medium"
    then some (utf16 (risk_label medium))
    else if level == utf16 "low"
    then some (utf16 (risk_label low))
    else none

-- RiskBadge: `label ?? RISK_LABEL[level] ?? level`
unfoldable pub risk_badge : Text → Option Text → Badge
unfolding label_of
risk_badge level label = record {
  cls = utf16 "badge b-" ++ level;
  label = or_else label (or_else (label_of level) level);
}

-- Stars: the full ones and the others; `repeat` throws for a negative count.
unfoldable pub stars : Option ℕ → Option (ℕ × ℕ)
stars n = let full = or_else n 0 in if ltb 5 full then none else some (full, 5 - full)

pub record AlertView : Type 0 where
  pub cls : Text
  pub title : Text
  pub body : Text

-- AlertRow
unfoldable pub alert_row : Option Text → Text → Text → Bool → AlertView
alert_row level title body dim = record {
  cls =
      utf16 "alert " ++ (or_else level [] ++ (utf16 " " ++ (if dim then utf16 "hidewrap" else [])));
  title = title;
  body = body;
}
