-- ===== src/Pages/DrillDown.antt =====
-- The number on a tile of the dashboard against the list that a click on the tile leads to.
use wachen.Base.{
  ◌≡◌, refl, ◌∙◌, ap, ◌+◌, ℕ, Bool, true, false, not, ◌&&◌, List, [], ◌∷◌, Text, cnt, length,
  Option, some, none, min, length-take, utf16, text_Eq, if◌then◌else◌, filter, filter-filter, arith,
  sum, ◌==◌,
}
use mathlib.Core.Option
use wachen.Base.Sort.{length-sort}
use wachen.Time.{parse}
use wachen.Domain.{high, canceled, negative, risk_Eq, sentiment_Eq, status_Eq, is_active}
use wachen.Case.{WaCase}
use wachen.Db.{App, clear_filters, bump}
use wachen.Filter.Admin.{passes, review_filters, is_past}
use wachen.Pages.Dashboard.{neg, overdue, Dest, go, target, neg_count, high_open, overdue_count}
use wachen.Pages.Cases.{listed, rows, tally, due_first}
use wachen.Pages.Reviews
use wachen.Pages.Reviews.{risk_first}
use wachen.Pages.Sla

cnt-ext :
    (p q : WaCase → Bool) → ((c : WaCase) → p c ≡ q c) → (cs : List WaCase) → cnt p cs ≡ cnt q cs
cnt-ext p q same [] = refl
cnt-ext p q same (c ∷ cs) = ground (arith, same c, cnt-ext p q same cs)

cnt-split :
    (p q : WaCase → Bool) (cs : List WaCase)
    → cnt p cs ≡ cnt (λ c. p c && q c) cs + cnt (λ c. p c && not (q c)) cs
cnt-split p q [] = omega arith
cnt-split p q (c ∷ cs) = ground (arith, cnt-split p q cs)

not-not_b : (b : Bool) → not (not b) ≡ b
not-not_b true = refl
not-not_b false = refl

module _ (lower : Text → Text) (now : ℕ) (s : App) (scope : List WaCase) where
  neg-passes : (c : WaCase) → passes lower now (go neg s).rf c ≡ (c.sentiment == negative)
  unfolding passes go clear_filters bump
  neg-passes c = ground arith

  high-passes : (c : WaCase) → passes lower now (go Dest.high s).rf c ≡ (c.risk_level == high)
  unfolding passes go clear_filters bump
  high-passes c = ground arith

  overdue-passes :
      (c : WaCase)
      → passes lower now (go overdue s).rf c
        ≡ (is_active c.cstatus && is_past (parse c.sla_due_at) now)
  unfolding passes go clear_filters bump
  overdue-passes c = not-not_b (is_active c.cstatus && is_past (parse c.sla_due_at) now)

  module _ (precedes : Text → Text → Bool) where
    -- The list of the page at a path, and the rows of it that the table draws.
    abbrev pub list_at : Text → App → Option (List WaCase)
    list_at pathname t =
        if pathname == utf16 "/reviews"
        then some (wachen.Pages.Reviews.listed precedes lower now t.rf scope)
        else if pathname == utf16 "/cases"
        then some (listed lower now t.rf scope)
        else none

    abbrev pub drawn_at : Text → App → Option (List WaCase)
    drawn_at pathname t =
        if pathname == utf16 "/reviews"
        then some
            (wachen.Pages.Reviews.rows (wachen.Pages.Reviews.listed precedes lower now t.rf scope))
        else if pathname == utf16 "/cases"
        then some (rows (listed lower now t.rf scope))
        else none

    -- The list of the page that a click on the tile leads to has `n` cases, and the table draws them up to
    -- its limit.
    abbrev pub Leads : Dest → ℕ → Type 0
    Leads dest n =
        (Option.map length (list_at (target dest) (go dest s)) ≡ some n)
        × (Option.map length (drawn_at (target dest) (go dest s)) ≡ some (min 120 n))

    length-listed :
        (dest : Dest) (p : WaCase → Bool)
        → ((c : WaCase) → passes lower now (go dest s).rf c ≡ p c)
        → length (wachen.Pages.Reviews.listed precedes lower now (go dest s).rf scope) ≡ cnt p scope
    unfolding wachen.Pages.Reviews.listed review_filters
    length-listed dest p h = length-sort (risk_first precedes) _ ∙ cnt-ext _ _ h scope

    listed-Leads :
        (dest : Dest) (n : ℕ)
        → target dest ≡ utf16 "/reviews"
        → length (wachen.Pages.Reviews.listed precedes lower now (go dest s).rf scope) ≡ n
        → Leads dest n
    unfolding wachen.Pages.Reviews.rows
    listed-Leads dest n t e = rw t (ap some e, ap some (length-take 120 _ ∙ ap (min 120) e))

    -- A click on the tile of the negative reviews leads to the page of the reviews, whose list has as many
    -- cases as the tile says; one on the tile of the overdue cases to the page of the cases, whose list
    -- has as many as it says, which is also how many are counted as overdue on the page of the
    -- deadlines. The two tables draw at most 120 cases of their lists.
    pub drill_down :
        (target neg ≡ utf16 "/reviews")
        × Leads neg (neg_count scope)
        × (target overdue ≡ utf16 "/cases")
        × Leads overdue (overdue_count now scope)
        × (length (wachen.Pages.Sla.overdue now scope) ≡ overdue_count now scope)
    unfolding review_filters listed rows neg_count overdue_count wachen.Pages.Sla.overdue
        wachen.Pages.Sla.active target
    drill_down =
        let late =
          length-sort due_first (filter (passes lower now (go overdue s).rf) scope)
          ∙ cnt-ext _ _ overdue-passes scope in
        (
          refl,
          listed-Leads neg (neg_count scope) refl (length-listed neg _ neg-passes),
          refl,
          (ap some late, ap some (length-take 120 _ ∙ ap (min 120) late)),
          ap length (filter-filter _ _ scope),
        )

    -- A click on the tile of the open high-risk cases leads to the page of the reviews, whose list has,
    -- besides as many cases as the tile says, all the high-risk cases that are no longer active.
    pub drill_down-high :
        (target Dest.high ≡ utf16 "/reviews")
        × Leads Dest.high
            (high_open scope + cnt (λ c. c.risk_level == high && not (is_active c.cstatus)) scope)
    unfolding high_open target
    drill_down-high = (
      refl,
      listed-Leads Dest.high _ refl (
          length-listed Dest.high _ high-passes
          ∙ cnt-split (λ c. c.risk_level == high) (λ c. is_active c.cstatus) scope),
    )

-- The tally above the list of cases leaves out the canceled ones and counts every other case once.
pub sum-tally :
    (cs : List WaCase) → sum (λ e. e.1) (tally cs) + cnt (λ c. c.cstatus == canceled) cs ≡ length cs
unfolding tally
sum-tally [] = omega arith
sum-tally (c ∷ cs) = ground (arith, sum-tally cs)
