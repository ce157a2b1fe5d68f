-- ===== src/Time.antt =====
-- `Date.parse` on the texts that ECMA-262 prescribes (a date, or a date and a time of day with `Z` or
-- an offset from UTC), as milliseconds since the start of the year 0, which keeps them natural. Any
-- other text is `NaN`, which is `none`: a host may read it in its own way.
mod Tests
use wachen.Base.{
  ℕ, zero, suc, ◌+◌, ◌-◌, ◌*◌, ◌/◌, ◌%◌, Bool, true, false, ◌&&◌, ◌||◌, List, [], ◌∷◌, Option, none,
  some, Text, if◌then◌else◌, ltb, leb, num_eq,
}

infixl 5 ◌>>=◌ ◌>>◌
abbrev pub ◌>>=◌ : {A B : Type 0} → Option A → (A → Option B) → Option B
none >>= f = none
some a >>= f = f a

abbrev pub ◌>>◌ : {B : Type 0} → Option (Unit {0}) → Option B → Option B
m >> k = m >>= λ _. k

abbrev guard : Bool → Option (Unit {0})
guard true = some tt
guard false = none

-- A number of exactly `k` digits, and the rest.
digits_from : ℕ → ℕ → Text → Option (ℕ × Text)
digits_from zero acc s = some (acc, s)
digits_from (suc k) acc [] = none
digits_from (suc k) acc (c ∷ s) =
    let rest = digits_from k (acc * 10 + (c - b'0')) s in
    if leb b'0' c && leb c b'9' then rest else none

abbrev digits : ℕ → Text → Option (ℕ × Text)
digits k s = digits_from k 0 s

expect : ℕ → Text → Option Text
expect c [] = none
expect c (d ∷ s) = if num_eq d c then some s else none

is_leap : ℕ → Bool
is_leap y = (num_eq (y % 4) 0 && ltb 0 (y % 100)) || num_eq (y % 400) 0

days_in : ℕ → ℕ → ℕ
unfolding is_leap
days_in y m =
    if num_eq m 2
    then (if is_leap y then 29 else 28)
    else (if num_eq m 4 || num_eq m 6 || num_eq m 9 || num_eq m 11 then 30 else 31)

-- The days of the months before `m`, counting down.
days_before : ℕ → ℕ → ℕ
days_before y zero = 0
days_before y (suc zero) = 0
days_before y (suc (suc m)) = days_before y (suc m) + days_in y (suc m)

-- The days from the start of the year 0 to the start of the year `y`; the year 0 is a leap year.
days_of_year : ℕ → ℕ
days_of_year zero = 0
days_of_year (suc y) = 365 * suc y + 1 + y / 4 - y / 100 + y / 400

-- The digits after the decimal point, of which the first three count.
fraction_from : ℕ → Text → ℕ × Text
fraction_from unit [] = (0, [])
fraction_from unit (c ∷ s) =
    let (more, rest) = fraction_from (unit / 10) s in
    if leb b'0' c && leb c b'9' then ((c - b'0') * unit + more, rest) else (0, c ∷ s)

fraction : Text → ℕ × Text
fraction [] = (0, [])
fraction (c ∷ s) = if num_eq c b'.' then fraction_from 100 s else (0, c ∷ s)

ends : Text → Bool
ends [] = true
ends (c ∷ s) = false

-- `hh:mm` at the end of the text, in milliseconds.
offset : Text → Option ℕ
unfolding digits_from expect ends
offset s = do
  (h, r) ← digits 2 s
  t ← expect b':' r
  (m, e) ← digits 2 t
  guard (ends e && ltb h 24 && ltb m 60)
  some ((h * 60 + m) * 60000)

-- The end of a date and time, for the local time `t`: `Z`, or an offset that is taken off. An offset
-- that leads before the year 0 stops at its start.
zone : ℕ → Text → Option ℕ
unfolding offset ends
zone t [] = none
zone t (c ∷ s) =
    if num_eq c b'Z'
    then (if ends s then some t else none)
    else if num_eq c b'+'
    then (offset s >>= λ o. some (t - o))
    else if num_eq c b'-'
    then (offset s >>= λ o. some (t + o))
    else none

-- `:ss` and a fraction, both of which may be missing; the fraction only after the seconds.
seconds : Text → Option (ℕ × Text)
unfolding digits_from fraction fraction_from
seconds [] = some (0, [])
seconds (c ∷ s) =
    if num_eq c b':'
    then (do
      (n, r) ← digits 2 s
      guard (ltb n 60)
      some (n * 1000 + (fraction r).0, (fraction r).1))
    else some (0, c ∷ s)

time_of_day : ℕ → Text → Option ℕ
unfolding digits_from expect seconds zone
time_of_day day s = do
  (h, r) ← digits 2 s
  t ← expect b':' r
  (m, u) ← digits 2 t
  (ms, e) ← seconds u
  guard (ltb h 24 && ltb m 60)
  zone (day * 86400000 + (h * 60 + m) * 60000 + ms) e

after_date : ℕ → Text → Option ℕ
unfolding time_of_day
after_date day [] = some (day * 86400000)
after_date day (c ∷ s) = if num_eq c b'T' then time_of_day day s else none

-- The number of a day, for a date that there is.
day_number : ℕ → ℕ → ℕ → Option ℕ
unfolding days_in days_before days_of_year
day_number y m d = do
  guard (leb 1 m && leb m 12 && leb 1 d && leb d (days_in y m))
  some (days_of_year y + days_before y m + (d - 1))

unfoldable pub parse : Text → Option ℕ
unfolding digits_from expect day_number after_date
parse s = do
  (y, r) ← digits 4 s
  t ← expect b'-' r
  (m, u) ← digits 2 t
  v ← expect b'-' u
  (d, e) ← digits 2 v
  day ← day_number y m d
  after_date day e
