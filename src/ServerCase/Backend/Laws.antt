-- ===== src/ServerCase/Backend/Laws.antt =====
-- How a click on a button of `CaseDetailPage` ends.
use wachen.Base.{
  ◌≡◌, refl, ap, ℕ, Bool, true, false, List, [], ◌∷◌, ◌++◌, Option, some, Text, utf16, text_Eq,
  text_eq, text_eq_iff, ◌==◌, if◌then◌else◌, find, length, arith, inl, inr, Bool-cases,
}
use wachen.Api.{
  Browser, headers, Outcome, value, failed, said, update_status, request, method, body, path, api,
}
use wachen.Api.Types.{CaseFilters}
use wachen.ServerCase.{ServerStatus, open_, in_progress, resolved, closed, valid_transitions}
use wachen.ServerCase.Backend.{
  Row, is_live, moved, update_row, change, service_update, store_update, of_name, status_name,
  answered, serve, press, bearer, is_missing,
}

of_name-status_name : (s : ServerStatus) → of_name (status_name s) ≡ some s
unfolding of_name status_name
of_name-status_name open_ = refl
of_name-status_name in_progress = refl
of_name-status_name resolved = refl
of_name-status_name closed = refl

-- A prefix makes a text another one.
ne_prefixed : (x : Text) → (x == utf16 "Bearer " ++ x) ≡ false
ne_prefixed x = elim (Bool-cases (text_eq x (utf16 "Bearer " ++ x))) [
  | inl e ↦ absurd (omega (arith, ap length ((text_eq_iff x (utf16 "Bearer " ++ x)).0 e)))
  | inr e ↦ e
]

module _ (a : ℕ) (tok : Text) where
  bearer-headers : bearer (headers (some (a ∷ tok)) []) ≡ a ∷ tok
  unfolding headers
  bearer-headers = refl

  is_missing-headers : is_missing (headers (some (a ∷ tok)) []) ≡ false
  unfolding headers
  is_missing-headers = ne_prefixed (a ∷ tok)

  module _ (verify : Text → Bool) (now : ℕ) (known : verify (a ∷ tok) ≡ true) where
    serve-status :
        (id : Text) (to : ServerStatus) (rows : List Row)
        → serve verify false now id
            (headers (some (a ∷ tok)) [])
            (body (update_status id (status_name to)))
            rows
          ≡ answered (status_name to) rows (change now id to rows (find (is_live id) rows))
    unfolding serve body store_update service_update headers status_name
    serve-status id to rows = rw (is_missing-headers, known, of_name-status_name to) refl

-- What a click on a button for `to` does, at a row that may have changed since it was drawn.
abbrev pub Pressed :
    ServerStatus
    → ℕ
    → Text
    → Browser
    → Row
    → List Row
    → (Outcome (Option Text) × Browser) × List Row
Pressed to now id b r rows =
    if valid_transitions r.status to
    then ((value (some (status_name to)), b), update_row id (moved now to) rows)
    else ((failed (said (utf16 "此狀態不可轉換")), b), rows)

-- With a token that the backend accepts and a database that is up, a click on a button of a case ends in
-- one of two ways, whatever has become of the case since the page was drawn: the table of the
-- backend allows the change, the promise is fulfilled with the new status, and the row of the case
-- has it; or the promise fails with the message of the backend, and no row has changed. The account
-- and the page stay in both.
pub press_lem :
    (verify : Text → Bool) (now : ℕ) (encode : CaseFilters → Text) (id : Text) (to : ServerStatus)
    (b : Browser) (rows : List Row) (a : ℕ) (tok : Text) (r : Row)
    → b.storage.token ≡ some (a ∷ tok)
    → verify (a ∷ tok) ≡ true
    → find (is_live id) rows ≡ some r
    → press verify false now encode id to b rows ≡ Pressed to now id b r rows
unfolding press api request method path
press_lem verify now encode id to b rows a tok r signed known e =
    rw (signed, serve-status a tok verify now known id to rows, e)
      (elim (Bool-cases (valid_transitions r.status to)) [ inl v ↦ rw v refl | inr v ↦ rw v refl ])
