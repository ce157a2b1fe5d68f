-- ===== src/SeedStatus.antt =====
-- `seedStatus` of `admin/src/lib/db.ts` and of `mobile/src/api/mock.ts`: the status that a case of
-- the demo data starts with, drawn from its id; and the code that the admin client shows.
pub mod Spread
mod Tests
use wachen.Base.{
  ℕ, ◌+◌, ◌-◌, ◌*◌, ◌%◌, Bool, false, ◌&&◌, ◌||◌, List, [], ◌∷◌, ◌++◌, map, Option, none, some,
  Text, utf16, ltb, leb, if◌then◌else◌, filter, take,
}
use wachen.Domain.{
  RiskLevel, high, medium, low, CaseStatus, unassigned, open_, in_progress, pending_review,
  pending_customer, done, closed,
}

-- `[0-9a-f]`
abbrev is_hex : ℕ → Bool
is_hex c = (leb b'0' c && leb c b'9') || (leb b'a' c && leb c b'f')

abbrev hex_digit : ℕ → ℕ
hex_digit c = if leb c b'9' then c - b'0' else c - 87

abbrev hex_from : ℕ → Text → ℕ
hex_from acc [] = acc
hex_from acc (c ∷ s) = hex_from (acc * 16 + hex_digit c) s

-- `parseInt(s, 16)` of hexadecimal digits; no digit gives `NaN`, which is `none`.
abbrev parse_hex : Text → Option ℕ
parse_hex [] = none
parse_hex (c ∷ s) = some (hex_from 0 (c ∷ s))

-- `parseInt(c.id.replace(/[^0-9a-f]/g, "").slice(0, 6), 16) % 100`
unfoldable pub seed_number : Text → Option ℕ
seed_number id = elim (parse_hex (take 6 (filter is_hex id))) [
  | none ↦ none
  | some n ↦ some (n % 100)
]

-- `n < k`, which is false of `NaN`.
abbrev pub below : Option ℕ → ℕ → Bool
below none k = false
below (some n) k = ltb n k

-- The ladders of `seedStatus`.
unfoldable pub seed_from : RiskLevel → Option ℕ → CaseStatus
seed_from high n = if below n 60 then in_progress else if below n 85 then open_ else unassigned
seed_from medium n =
    if below n 18
    then done
    else if below n 28
    then closed
    else if below n 45
    then in_progress
    else if below n 58
    then pending_customer
    else if below n 70
    then pending_review
    else if below n 82
    then unassigned
    else open_
seed_from low n =
    if below n 32
    then closed
    else if below n 52
    then done
    else if below n 62
    then in_progress
    else if below n 70
    then unassigned
    else open_

-- `seedStatus` with nothing saved.
unfoldable pub seed_status : Text → RiskLevel → CaseStatus
unfolding seed_number seed_from
seed_status id risk = seed_from risk (seed_number id)

-- `toUpperCase` of an id; ids are UUIDs, so only ASCII letters have an upper case.
abbrev upper : ℕ → ℕ
upper c = if leb b'a' c && leb c b'z' then c - 32 else c

-- `"C-" + c.id.slice(0, 6).toUpperCase()`
unfoldable pub case_code : Text → Text
case_code id = utf16 "C-" ++ map upper (take 6 id)
