-- ===== src/Base/Fields.antt =====
-- `s.split(sep)` for a separator of one unit.
use Prim.Native.Nat.{ℕ}
use mathlib.Core.Path.{◌≡◌, refl}
use mathlib.Core.Bool.{false, not}
use mathlib.Core.List.{List, [], ◌∷◌, ◌++◌}
use native.Mathlib.Omega.{arith}
use wachen.Base.Tests.{if◌then◌else◌, num_eq, nat_eq}
use wachen.Base.Lists.{filter, includes}
use wachen.Base.Utf16.{Text, is_empty}

-- A unit in front of the first field.
abbrev pub onto_first : ℕ → List Text → List Text
onto_first c [] = []
onto_first c (f ∷ fs) = (c ∷ f) ∷ fs

abbrev pub fields : ℕ → Text → List Text
fields sep [] = [] ∷ []
fields sep (c ∷ s) = if num_eq c sep then [] ∷ fields sep s else onto_first c (fields sep s)

-- `s.split(sep).filter(Boolean)`
abbrev pub parts : ℕ → Text → List Text
parts sep s = filter (λ f. not (is_empty f)) (fields sep s)

-- A text without the separator is one field.
pub fields-whole : (sep : ℕ) (s : Text) → includes sep s ≡ false → fields sep s ≡ s ∷ []
fields-whole sep [] h = refl
fields-whole sep (c ∷ s) h = ground (arith, fields-whole sep s)

pub fields-append :
    (sep : ℕ) (s t : Text) → includes sep s ≡ false → fields sep (s ++ sep ∷ t) ≡ s ∷ fields sep t
fields-append sep [] t h = ground arith
fields-append sep (c ∷ s) t h = ground (arith, fields-append sep s t)
