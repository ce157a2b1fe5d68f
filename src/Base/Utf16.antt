-- ===== src/Base/Utf16.antt =====
-- Strings of JavaScript as lists of UTF-16 code units, for text that the program compares, cuts or
-- searches.
use Prim.Native.Nat.{ℕ, ◌+◌, ◌-◌, ◌/◌, ◌%◌}
use Prim.Native.Char.{code}
use Prim.Native.String.{String}
use mathlib.Core.Path.{◌≡◌, refl}
use mathlib.Core.Logic.{◌↔◌}
use mathlib.Core.Bool.{Bool, true, false, ◌&&◌, ◌||◌}
use mathlib.Core.Option.{Option, none, some}
use mathlib.Core.List.{List, [], ◌∷◌, ◌++◌}
use native.Mathlib.Omega.{arith}
use wachen.Base.Tests.{if◌then◌else◌, ltb, num_eq, Eq}
use wachen.Base.Lists.{length, drop}

abbrev pub Text : Type 0
Text = List ℕ

-- A code point is one unit, or a pair of surrogates from U+10000 on.
abbrev units : ℕ → Text → Text
units c rest =
    if ltb c 0x10000
    then c ∷ rest
    else (0xd800 + (c - 0x10000) / 0x400) ∷ (0xdc00 + (c - 0x10000) % 0x400) ∷ rest

-- A literal of the source.
abbrev pub utf16 : String → Text
utf16 String.[] = []
utf16 (String.◌∷◌ c s) = units (code c) (utf16 s)

abbrev pub text_eq : Text → Text → Bool
text_eq [] [] = true
text_eq (a ∷ s) (b ∷ t) = num_eq a b && text_eq s t
text_eq _ _ = false

pub text_eq_iff : (s t : Text) → (text_eq s t ≡ true) ↔ (s ≡ t)
text_eq_iff [] [] = (λ _. refl, λ _. refl)
text_eq_iff [] (b ∷ t) = ground arith
text_eq_iff (a ∷ s) [] = ground arith
text_eq_iff (a ∷ s) (b ∷ t) = ground (arith, text_eq_iff s t)

instance abbrev pub text_Eq : Eq Text
text_Eq = record { equals = text_eq; equals_iff = text_eq_iff }

-- `""` is falsy.
abbrev pub is_empty : Text → Bool
is_empty [] = true
is_empty (c ∷ s) = false

-- `a || b`
abbrev pub or_text : Text → Text → Text
or_text a b = if is_empty a then b else a

abbrev pub starts_with : Text → Text → Bool
starts_with s [] = true
starts_with [] (c ∷ p) = false
starts_with (a ∷ s) (c ∷ p) = num_eq a c && starts_with s p

-- `s.includes(p)`
abbrev pub has_substring : Text → Text → Bool
has_substring [] p = starts_with [] p
has_substring (a ∷ s) p = starts_with (a ∷ s) p || has_substring s p

-- `s.slice(-n)`
abbrev pub take_right : ℕ → Text → Text
take_right n s = drop (length s - n) s

-- The part of `s` before the first `sep`, and the part after it up to the next one: the first two
-- fields of `s.split(sep)`, the second of them absent if `sep` does not occur.
abbrev pub before : ℕ → Text → Text
before sep [] = []
before sep (c ∷ s) = if num_eq c sep then [] else c ∷ before sep s

abbrev pub field_after : ℕ → Text → Option Text
field_after sep [] = none
field_after sep (c ∷ s) = if num_eq c sep then some (before sep s) else field_after sep s

-- `strs.join("")`
abbrev pub join : List Text → Text
join [] = []
join (s ∷ ss) = s ++ join ss
