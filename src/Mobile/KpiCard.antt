-- ===== src/Mobile/KpiCard.antt =====
-- `mobile/src/components/KpiCard.tsx`: the tile of a number, with the line of its change.
use wachen.Base.{ℕ, ◌+◌, Bool, ◌∷◌, Option, none, some, Text, String, is_some}
use wachen.Base.Int.{ℤ, pos, negsuc}
use wachen.Mobile.CaseItem.{Tone, tone_color}

-- `to` is where `onPress` leads; a value is given as it is printed.
pub record KpiProps : Type 0 where
  pub value : Text
  pub unit : Option Text
  pub label : Text
  pub sub : Option Text
  pub delta : Option ℤ
  pub delta_unit : Text
  pub tone : Tone
  pub synthetic : Bool
  pub to : Option Text

pub record Change : Type 0 where
  pub color : String
  pub arrow : String
  pub size : ℕ
  pub unit : Text

pub record KpiTile : Type 0 where
  pub value : Text
  pub color : String
  pub unit : Option Text
  pub simulated : Bool
  pub label : Text
  pub change : Option Change
  pub sub : Option Text
  pub scales : Bool

-- `delta >= 0` and `Math.abs(delta)`
unfoldable pub change_of : Text → Option ℤ → Option Change
change_of unit none = none
change_of unit (some (pos n)) = some (record { color = "good"; arrow = "▲"; size = n; unit = unit })
change_of unit (some (negsuc n)) =
    some (record { color = "critical"; arrow = "▼"; size = n + 1; unit = unit })

-- An optional text that is empty is not shown.
unfoldable pub shown : Option Text → Option Text
shown (some (c ∷ s)) = some (c ∷ s)
shown _ = none

unfoldable pub kpi_tile : KpiProps → KpiTile
unfolding change_of shown
kpi_tile p = record {
  value = p.value;
  color = tone_color p.tone;
  unit = shown p.unit;
  simulated = p.synthetic;
  label = p.label;
  change = change_of p.delta_unit p.delta;
  sub = shown p.sub;
  scales = is_some p.to;
}
