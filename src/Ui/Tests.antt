-- ===== src/Ui/Tests.antt =====
-- Runs of the parts.
use wachen.Base.{◌≡◌, refl, none, some, utf16}
use wachen.Base.Int.{negsuc}
use wachen.Ui.{delta_line, risk_badge, stars}

two_down : (delta_line (utf16 "%") (negsuc 1)).size ≡ 2
unfolding delta_line
two_down = refl

three_of_five : stars (some 3) ≡ some (3, 2)
unfolding stars
three_of_five = refl

unknown_level : (risk_badge (utf16 "urgent") none).label ≡ utf16 "urgent"
unfolding risk_badge
unknown_level = refl

known_level : (risk_badge (utf16 "low") none).label ≡ utf16 "低風險"
unfolding risk_badge
known_level = refl
