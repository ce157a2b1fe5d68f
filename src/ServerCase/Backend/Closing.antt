-- ===== src/ServerCase/Backend/Closing.antt =====
-- How a case of the backend is brought to its end with the buttons of `CaseDetailPage`.
use wachen.Base.{
  ◌≡◌, refl, ◌∙◌, ap, ℕ, suc, ◌≤◌, Bool, true, false, List, [], ◌∷◌, some, Text, find, length, any,
  arith, Bool-cases, inl, inr, text_Eq,
}
use wachen.Api.{Browser}
use wachen.Api.Types.{CaseFilters}
use wachen.ServerCase.{
  ServerStatus, open_, in_progress, resolved, closed, actions, status_is, valid_transitions,
}
use wachen.ServerCase.Backend.{Row, is_live, moved, update_row, press}
use wachen.ServerCase.Backend.History.{some-inj}
use wachen.ServerCase.Backend.Laws.{press_lem}

-- At a case of that status, the page has a button for the first of these, and then for each that follows.
abbrev pub Offered : ServerStatus → List ServerStatus → Type 0
Offered s [] = Unit
Offered s (t ∷ ts) = (any (λ a. status_is a.0 t) (actions s) ≡ true) × Offered t ts

-- The rows after the clicks on the buttons for these statuses, at the times that the clock shows.
unfoldable pub clicks :
    (Text → Bool)
    → (CaseFilters → Text)
    → Text
    → Browser
    → (ℕ → ℕ)
    → List ServerStatus
    → List Row
    → List Row
unfolding press
clicks verify encode id b clock [] rows = rows
clicks verify encode id b clock (to ∷ ts) rows =
    clicks verify encode id b (λ n. clock (suc n)) ts
      (press verify false (clock 0) encode id to b rows).1

find-update_row :
    (id : Text) (now : ℕ) (to : ServerStatus) (r : Row) (rows : List Row)
    → find (is_live id) rows ≡ some r
    → find (is_live id) (update_row id (moved now to) rows) ≡ some (moved now to r)
unfolding update_row moved
find-update_row id now to r [] e = cc
find-update_row id now to r (x ∷ rows) e = elim (Bool-cases (is_live id x)) [
  | inl t ↦ rw (t, t) (ap (λ y. some (moved now to y)) (some-inj (rw t at e)))
  | inr t ↦ rw (t, t) (find-update_row id now to r rows (rw t at e))
]

module _ (verify : Text → Bool) (encode : CaseFilters → Text) (id : Text) (b : Browser) where
  -- At most two clicks lead to a closed case.
  abbrev pub Closable : (ℕ → ℕ) → List Row → ServerStatus → Type 0
  Closable clock rows s =
      (ts : List ServerStatus) × Offered s ts
      × (length ts ≤ 2)
      × (d : Row) × (find (is_live id) (clicks verify encode id b clock ts rows) ≡ some d)
      × (d.status ≡ closed)

  module _ (a : ℕ) (tok : Text) (signed : b.storage.token ≡ some (a ∷ tok))
      (known : verify (a ∷ tok) ≡ true) where
    pressed :
        (now : ℕ) (to : ServerStatus) (rows : List Row) (r : Row)
        → valid_transitions r.status to ≡ true
        → find (is_live id) rows ≡ some r
        → find (is_live id) (press verify false now encode id to b rows).1 ≡ some (moved now to r)
    pressed now to rows r v e =
        let done = press_lem verify now encode id to b rows a tok r signed known e in
        ap (λ p. find (is_live id) p.1) done ∙ rw v (find-update_row id now to r rows e)

    resolve_first :
        (clock : ℕ → ℕ) (rows : List Row) (r : Row)
        → find (is_live id) rows ≡ some r
        → (s : ServerStatus) → any (λ x. status_is x.0 resolved) (actions s) ≡ true
        → valid_transitions r.status resolved ≡ true
        → Closable clock rows s
    unfolding clicks moved valid_transitions actions
    resolve_first clock rows r e s offered v =
        let between = moved (clock 0) resolved r in
        (
          resolved ∷ closed ∷ [],
          (offered, (refl, tt)),
          omega arith,
          moved (clock 1) closed between,
          pressed (clock 1) closed (press verify false (clock 0) encode id resolved b rows).1
              between refl (pressed (clock 0) resolved rows r v e),
          refl,
        )

    status-Closable :
        (clock : ℕ → ℕ) (rows : List Row) (r : Row)
        → find (is_live id) rows ≡ some r
        → (s : ServerStatus) → r.status ≡ s
        → Closable clock rows s
    unfolding clicks moved valid_transitions actions
    status-Closable clock rows r e closed p = ([], tt, omega arith, r, e, p)
    status-Closable clock rows r e resolved p =
        let v : valid_transitions r.status closed ≡ true = rw p refl in
        (
          closed ∷ [],
          (refl, tt),
          omega arith,
          moved (clock 0) closed r,
          pressed (clock 0) closed rows r v e,
          refl,
        )
    status-Closable clock rows r e open_ p = resolve_first clock rows r e open_ refl (rw p refl)
    status-Closable clock rows r e in_progress p =
        resolve_first clock rows r e in_progress refl (rw p refl)

    -- With a token that the backend accepts and a database that is up, every case that is not deleted can be
    -- closed with the buttons that the page offers for it, one after the other: at most two clicks,
    -- whatever its status, and at whatever times they come.
    pub row-Closable :
        (clock : ℕ → ℕ) (rows : List Row) (r : Row)
        → find (is_live id) rows ≡ some r
        → Closable clock rows r.status
    row-Closable clock rows r e = status-Closable clock rows r e r.status refl
