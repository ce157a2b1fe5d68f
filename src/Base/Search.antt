-- ===== src/Base/Search.antt =====
-- When a text has another inside it.
use mathlib.Core.Path.{◌≡◌, refl}
use mathlib.Core.Logic.{◌↔◌, inl, inr}
use mathlib.Core.Bool.{true}
use mathlib.Core.List.{[], ◌∷◌, ◌++◌}
use native.Mathlib.Omega.{arith}
use wachen.Base.Tests.{num_eq, Bool-cases}
use wachen.Base.Utf16.{Text, starts_with, has_substring}

-- Some text stands before `p` in `s`, and some after it.
abbrev pub Holds : Text → Text → Type 0
Holds s p = (pre : Text) × (post : Text) × (s ≡ pre ++ (p ++ post))

starts_with_sound : (s p : Text) → starts_with s p ≡ true → (post : Text) × (s ≡ p ++ post)
starts_with_sound s [] h = (s, refl)
starts_with_sound [] (c ∷ p) h = cc
starts_with_sound (a ∷ s) (c ∷ p) h = elim (Bool-cases (num_eq a c)) [
  | inl e ↦
      let same : a ≡ c = ground arith in
      let (post, q) = starts_with_sound s p (ground arith) in (post, cc)
  | inr e ↦ ground arith
]

starts_with-append : (p post : Text) → starts_with (p ++ post) p ≡ true
starts_with-append [] post = refl
starts_with-append (c ∷ p) post = ground (arith, starts_with-append p post)

has_substring_sound : (s p : Text) → has_substring s p ≡ true → Holds s p
has_substring_sound [] p h = let (post, e) = starts_with_sound [] p h in ([], post, e)
has_substring_sound (a ∷ s) p h = elim (Bool-cases (starts_with (a ∷ s) p)) [
  | inl e ↦ let (post, q) = starts_with_sound (a ∷ s) p e in ([], post, q)
  | inr e ↦ let (pre, post, q) = has_substring_sound s p (ground arith) in (a ∷ pre, post, cc)
]

has_substring-here : (p post : Text) → has_substring (p ++ post) p ≡ true
has_substring-here [] [] = refl
has_substring-here [] (c ∷ post) = refl
has_substring-here (c ∷ p) post = rw (starts_with-append (c ∷ p) post) refl

has_substring-later : (pre p post : Text) → has_substring (pre ++ (p ++ post)) p ≡ true
has_substring-later [] p post = has_substring-here p post
has_substring-later (c ∷ pre) p post = ground (arith, has_substring-later pre p post)

pub has_substring_iff : (s p : Text) → (has_substring s p ≡ true) ↔ Holds s p
has_substring_iff s p = (has_substring_sound s p, λ h. rw h.2 (has_substring-later h.0 p h.1))
