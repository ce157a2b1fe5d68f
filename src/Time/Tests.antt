-- ===== src/Time/Tests.antt =====
-- Dates as the data and the hosts have them.
use wachen.Base.{◌≡◌, refl, ◌+◌, none, some, utf16}
use wachen.Time.{parse}

epoch : parse (utf16 "1970-01-01T00:00:00Z") ≡ some 62167219200000
unfolding parse
epoch = refl

due : parse (utf16 "2026-07-04T13:06:29.133998Z") ≡ some (62167219200000 + 1783170389133)
unfolding parse
due = refl

with_offset : parse (utf16 "2024-02-29T08:00:00.5+08:00") ≡ some (62167219200000 + 1709164800500)
unfolding parse
with_offset = refl

no_such_day : parse (utf16 "2023-02-29T08:00:00Z") ≡ none
unfolding parse
no_such_day = refl
