-- ===== src/SeedStatus/Tests.antt =====
-- Runs of `seedStatus`.
use wachen.Base.{◌≡◌, refl, none, some, utf16}
use wachen.SeedStatus.{seed_number, case_code}

drawn : seed_number (utf16 "3f00aa-1") ≡ some 38
unfolding seed_number
drawn = refl

code : case_code (utf16 "3f00aa-1") ≡ utf16 "C-3F00AA"
unfolding case_code
code = refl

no_digit : seed_number (utf16 "xyz") ≡ none
unfolding seed_number
no_digit = refl
