-- ===== src/Filter/Admin.antt =====
-- `reviewFilters`. The host's table of lower case letters enters as the argument `lower`, and the
-- current time as `now`, counted as in `Time`. A date that cannot be read is `NaN`, which is before
-- nothing.
use wachen.Base.{
  ℕ, Bool, false, not, ◌&&◌, List, ◌++◌, Option, none, some, Text, text_Eq, ◌==◌, filter, includes,
  is_empty, has_substring, join, ltb, Eq,
}
use wachen.Time.{parse}
use wachen.Domain.{risk_Eq, sentiment_Eq, status_Eq, is_active}
use wachen.Case.{WaCase, ReviewFilters}

-- `Date.parse(due) < now`
abbrev pub is_past : Option ℕ → ℕ → Bool
is_past none now = false
is_past (some t) now = ltb t now

-- A choice that is made, and that the value misses: `f && v !== f`.
abbrev pub misses : Text → Text → Bool
misses f v = not (is_empty f) && not (v == f)

abbrev pub misses_choice {ℓ} : {A : Type ℓ} ⦃e : Eq A⦄ → Option A → A → Bool
misses_choice none v = false
misses_choice (some f) v = not (v == f)

module _ (lower : Text → Text) (now : ℕ) where
  -- The text that the search looks into.
  abbrev pub haystack : WaCase → Text
  haystack c =
      lower (c.store ++ (c.summary ++ (c.review_content ++ (join c.keywords ++ c.author_name))))

  -- `isActive(c) && Date.parse(c.sla_due_at) < Date.now()`
  abbrev pub is_overdue : WaCase → Bool
  is_overdue c = is_active c.cstatus && is_past (parse c.sla_due_at) now

  -- One round of the filter: each test that fails returns `false` at once.
  unfoldable pub passes : ReviewFilters → WaCase → Bool
  passes rf c =
      not (not (is_empty rf.q) && not (has_substring (haystack c) (lower rf.q)))
      && not (misses rf.brand c.brand)
      && not (misses rf.store c.store)
      && not (misses_choice rf.risk c.risk_level)
      && not (misses_choice rf.sent c.sentiment)
      && not (misses_choice rf.status c.cstatus)
      && not (not (is_empty rf.cat) && not (includes rf.cat c.categories))
      && not (rf.overdue && not (is_overdue c))

  unfoldable pub review_filters : ReviewFilters → List WaCase → List WaCase
  unfolding passes
  review_filters rf xs = filter (passes rf) xs
