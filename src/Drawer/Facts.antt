-- ===== src/Drawer/Facts.antt =====
-- What the drawer derives from a case, `admin/src/components/Drawer.tsx`: dates, the bar of the score, the
-- suspicion of unsafe food, and the sample of a phone number and an address. `lower` is the host's
-- table of lower case letters.
use wachen.Base.{
  or_text, ℕ, ◌+◌, ◌-◌, Bool, not, ◌&&◌, ◌||◌, [], ◌∷◌, ◌++◌, map, Option, none, some, Text, utf16,
  String, text_Eq, nat_eq, if◌then◌else◌, ltb, leb, num_eq, filter, any, take, length, includes,
  has_substring, replicate,
}
use wachen.Base.Int.{ℤ, pos, negsuc, ltb_ℤ}
use wachen.Domain.{risk_Eq, status_Eq}
use wachen.Case.{WaCase}

-- fmtD and fmtDT
unfoldable pub fmt_d : Text → Text
fmt_d s = take 10 s

-- `.replace("T", " ")`: the first of them.
abbrev spaced : Text → Text
spaced [] = []
spaced (c ∷ s) = if num_eq c b'T' then b' ' ∷ s else c ∷ spaced s

unfoldable pub fmt_dt : Text → Text
fmt_dt s = spaced (take 16 s)

-- The width of the bar of the score, in half percents: `(sc + 1) / 2`, for a score in hundredths.
unfoldable pub score_width : Option ℤ → ℤ
score_width none = pos 100
score_width (some (pos n)) = pos (n + 100)
score_width (some (negsuc n)) = if ltb n 100 then pos (99 - n) else negsuc (n - 100)

unfoldable pub score_color : Option ℤ → String
score_color none = "var(--warning)"
score_color (some sc) =
    if ltb_ℤ sc (negsuc 28)
    then "var(--critical)"
    else if ltb_ℤ sc (pos 30)
    then "var(--warning)"
    else "var(--good)"

unfoldable pub is_food : WaCase → Bool
is_food c =
    includes (utf16 "環境清潔") c.categories
    || any
        (λ r.
          has_substring r (utf16 "食安")
          || has_substring r (utf16 "不新鮮")
          || has_substring r (utf16 "異物"))
        c.risk_reasons

-- `.replace(/\D/g, "0")`
abbrev only_digits : Text → Text
only_digits s = map (λ c. if leb b'0' c && leb c b'9' then c else b'0') s

-- `.padEnd(n, "0")`
abbrev pad_end : ℕ → Text → Text
pad_end n s = s ++ replicate (n - length s) b'0'

unfoldable pub phone_of : WaCase → Text
phone_of c = utf16 "0912-345-" ++ pad_end 3 (only_digits (take 3 c.id))

-- The units that `\s` matches.
abbrev is_space : ℕ → Bool
is_space c =
    (leb 9 c && leb c 13)
    || (leb 0x2000 c && leb c 0x200a)
    || includes c (32 ∷ 0xa0 ∷ 0x1680 ∷ 0x2028 ∷ 0x2029 ∷ 0x202f ∷ 0x205f ∷ 0x3000 ∷ 0xfeff ∷ [])

unfoldable pub email_of : (Text → Text) → WaCase → Text
email_of lower c =
    take 6 (lower (filter (λ u. not (is_space u)) (or_text c.author_name (utf16 "guest"))))
    ++ utf16 "@example.com"
