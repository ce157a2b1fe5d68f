-- ===== src/Roles/Masking.antt =====
-- What the mask lets through.
use wachen.Base.{◌≡◌, refl, false, Text, or_else, take, take_right, before, field_after, []}
use wachen.Roles.Table.{Role}
use wachen.Roles.Scope.{PiiKind, phone, email, mask}

-- What two values have to share to look the same under the mask: the last three digits of a phone
-- number; the first two letters and the host of an address; of a name, nothing.
abbrev pub LookAlike : PiiKind → Text → Text → Type 0
LookAlike phone v w = take_right 3 v ≡ take_right 3 w
LookAlike email v w =
    (take 2 (before b'@' v) ≡ take 2 (before b'@' w))
    × (or_else (field_after b'@' v) [] ≡ or_else (field_after b'@' w) [])
LookAlike PiiKind.name v w = Unit

-- To a role without the right to personal data, values that look alike are shown as one text: nothing
-- else of them gets through.
pub mask_hides :
    (r : Role) (v w : Text) (k : PiiKind)
    → r.pii ≡ false
    → LookAlike k v w
    → mask r v k ≡ mask r w k
unfolding mask
mask_hides r v w phone h e = rw (h, e) refl
mask_hides r v w email h e = rw (h, e.0, e.1) refl
mask_hides r v w PiiKind.name h e = rw h refl
