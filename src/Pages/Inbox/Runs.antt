-- ===== src/Pages/Inbox/Runs.antt =====
-- What holds of the page of live cases after any events.
use wachen.Base.{
  ◌≡◌, refl, ℕ, ◌+◌, ◌<◌, ◌⊎◌, inl, inr, true, List, [], Text, arith, num_eq, Bool-cases,
}
use wachen.Base.Predicates.{All, All-imp}
use wachen.Api.Types.{CaseFilters, CaseSummary}
use wachen.Pages.Inbox.{
  Inbox, opened, changed, polled, arrived, is_google_source, with_source, Step, sets_risk,
  sets_status, sets_store, sets_sort, sets_source, sets_rating, clears, polls, answers, Reach, here,
  next,
}

-- A request of an earlier run, whose answer is dropped, or one for the filters that are set.
abbrev pub IsCurrent : Inbox → ℕ × CaseFilters → Type 0
IsCurrent s r = (r.0 < s.live) ⊎ ((r.0 ≡ s.live) × (r.1 ≡ s.filters))

module _ (lower : Text → Text) where
  -- Stars are asked for at a Google source only.
  abbrev pub IsRated : CaseFilters → Type 0
  IsRated f = (f.rating ≡ []) ⊎ (is_google_source lower f.source ≡ true)

  pub record Inv (s : Inbox) : Type 0 where
    pub current : All (IsCurrent s) s.sent
    pub rated : IsRated s.filters

  changed-Inv : (f : CaseFilters) (s : Inbox) → IsRated f → Inv s → Inv (changed f s)
  unfolding changed
  changed-Inv f s r h = record {
    current = (
      inr (refl, refl),
      All-imp (IsCurrent s) (λ q. (q.0 < s.live + 1) ⊎ ((q.0 ≡ s.live + 1) × (q.1 ≡ f)))
          (λ q. elim [ inl lt ↦ inl (omega (arith, lt)) | inr e ↦ inl (omega (arith, e.0)) ]) s.sent
          h.current,
    );
    rated = r;
  }

  with_source-IsRated : (v : Text) (f : CaseFilters) → IsRated (with_source lower v f)
  unfolding with_source
  with_source-IsRated v f = elim (Bool-cases (is_google_source lower v)) [
    | inl e ↦ inr e
    | inr e ↦ rw e (inl refl)
  ]

  arrived-Inv : (k : ℕ) (cs : List CaseSummary) (s : Inbox) → Inv s → Inv (arrived k cs s)
  unfolding arrived
  arrived-Inv k cs s h = elim (Bool-cases (num_eq k s.live)) [
    | inl e ↦ rw e (record { current = h.current; rated = h.rated })
    | inr e ↦ rw e h
  ]

  Step-Inv : {s t : Inbox} → Step lower s t → Inv s → Inv t
  unfolding polled
  Step-Inv (sets_risk v s) h = changed-Inv (record s.filters { risk = v }) s h.rated h
  Step-Inv (sets_status v s) h = changed-Inv (record s.filters { status = v }) s h.rated h
  Step-Inv (sets_store v s) h = changed-Inv (record s.filters { store = v }) s h.rated h
  Step-Inv (sets_sort v s) h = changed-Inv (record s.filters { sort = v }) s h.rated h
  Step-Inv (sets_source v s) h =
      changed-Inv (with_source lower v s.filters) s (with_source-IsRated v s.filters) h
  Step-Inv (sets_rating v s g) h = changed-Inv (record s.filters { rating = v }) s (inr g) h
  Step-Inv (clears s a) h = changed-Inv wachen.Pages.Inbox.no_filters s (inl refl) h
  Step-Inv (polls s) h = record { current = (inr (refl, refl), h.current); rated = h.rated }
  Step-Inv (answers k f cs s m) h = arrived-Inv k cs s h

  opened-Inv : Inv opened
  unfolding opened
  opened-Inv = record { current = (inr (refl, refl), tt); rated = inl refl }

  -- After any events, with the answers in any order: every request that was sent is one of an earlier
  -- run of the effect, or one of the last run and for the filters that are set; and stars are asked
  -- for at a Google source only.
  pub inbox_Reach-Inv : {t : Inbox} → Reach lower opened t → Inv t
  inbox_Reach-Inv here = opened-Inv
  inbox_Reach-Inv (next r st) = Step-Inv st (inbox_Reach-Inv r)
