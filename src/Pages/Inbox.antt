-- ===== src/Pages/Inbox.antt =====
-- `admin/src/pages/Inbox.tsx`: its filters, and the requests that it sends for the list. Each run of
-- the effect on the filters has a number; `live` is the number of the last, the only one whose flag
-- `live` is still set. `sent` has every request with the number of its run and its filters.
pub mod Runs
use wachen.Base.{
  ◌≡◌, ℕ, ◌+◌, Bool, true, false, not, ◌||◌, List, [], ◌∷◌, Option, none, some, Text, utf16,
  text_Eq, ◌==◌, if◌then◌else◌, is_empty, has_substring, num_eq,
}
use wachen.Base.Predicates.{In}
use wachen.Api.Types.{CaseFilters, CaseSummary}

-- EMPTY
abbrev pub no_filters : CaseFilters
no_filters = record {
  risk = [];
  status = [];
  store = [];
  source = [];
  rating = [];
  sort = utf16 "sla";
}

pub record Inbox : Type 0 where
  pub filters : CaseFilters
  pub cases : Option (List CaseSummary)
  pub live : ℕ
  pub sent : List (ℕ × CaseFilters)

-- The page once its effect has run for the first time.
unfoldable pub opened : Inbox
opened = record { filters = no_filters; cases = none; live = 0; sent = (0, no_filters) ∷ [] }

-- `setFilters`, with the clean-up of the effect and its next run, which sends a request.
unfoldable pub changed : CaseFilters → Inbox → Inbox
changed f s = record {
  filters = f;
  cases = s.cases;
  live = s.live + 1;
  sent = (s.live + 1, f) ∷ s.sent;
}

-- The interval of the effect sends the request again.
unfoldable pub polled : Inbox → Inbox
polled s = record s { sent = (s.live, s.filters) ∷ s.sent }

-- An answer to a request of the run `k`: `live && setCases(r.cases)`.
unfoldable pub arrived : ℕ → List CaseSummary → Inbox → Inbox
arrived k cs s = if num_eq k s.live then record s { cases = some cs } else s

-- `active`
unfoldable pub is_active : CaseFilters → Bool
is_active f =
    not (is_empty f.risk)
    || (not (is_empty f.status)
        || (not (is_empty f.store)
            || (not (is_empty f.source)
                || (not (is_empty f.rating) || not (f.sort == utf16 "sla")))))

module _ (lower : Text → Text) where
  unfoldable pub is_google_source : Text → Bool
  is_google_source source = has_substring (lower source) (utf16 "google")

  -- `setSource`
  unfoldable pub with_source : Text → CaseFilters → CaseFilters
  unfolding is_google_source
  with_source source f = record f {
    source = source;
    rating = if is_google_source source then f.rating else [];
  }

  -- What the user, the interval and the network do. The select of the stars is drawn for a Google
  -- source only, and the button that clears the filters only while some are set.
  pub data Step : Inbox → Inbox → Type 0 where
    sets_risk : (v : Text) (s : Inbox) → Step s (changed (record s.filters { risk = v }) s)
    sets_status : (v : Text) (s : Inbox) → Step s (changed (record s.filters { status = v }) s)
    sets_store : (v : Text) (s : Inbox) → Step s (changed (record s.filters { store = v }) s)
    sets_sort : (v : Text) (s : Inbox) → Step s (changed (record s.filters { sort = v }) s)
    sets_source : (v : Text) (s : Inbox) → Step s (changed (with_source v s.filters) s)
    sets_rating :
        (v : Text) (s : Inbox)
        → is_google_source s.filters.source ≡ true
        → Step s (changed (record s.filters { rating = v }) s)
    clears : (s : Inbox) → is_active s.filters ≡ true → Step s (changed no_filters s)
    polls : (s : Inbox) → Step s (polled s)
    answers :
        (k : ℕ) (f : CaseFilters) (cs : List CaseSummary) (s : Inbox)
        → In (k, f) s.sent
        → Step s (arrived k cs s)

  pub data Reach (s : Inbox) : Inbox → Type 0 where
    here : Reach s s
    next : {t u : Inbox} → Reach s t → Step t u → Reach s u
