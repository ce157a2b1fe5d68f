-- ===== src/Filter/Exact.antt =====
-- Exactly which cases pass the filters of the admin client.
use wachen.Base.{
  ◌≡◌, refl, ap, ◌↔◌, ◌<◌, ℕ, Bool, true, false, not, ◌&&◌, List, [], ◌∷◌, Option, none, some, Text,
  text_eq_iff, text_Eq, arith, is_empty, includes, has_substring,
}
use mathlib.Core.Bool.{and-eq-true_iff}
use wachen.Base.Predicates.{In, In-filter_iff, includes_iff}
use wachen.Base.Search.{Holds, has_substring_iff}
use wachen.Time.{parse}
use wachen.Domain.{
  RiskLevel, Sentiment, CaseStatus, risk_Eq, sentiment_Eq, status_Eq, is_active, risk_eq_iff,
  sentiment_eq_iff, status_eq_iff,
}
use wachen.Case.{WaCase, ReviewFilters}
use wachen.Db.{no_filters}
use wachen.Filter.Admin.{
  misses, misses_choice, is_past, haystack, is_overdue, passes, review_filters,
}

-- A text that is chosen, and that the value is.
abbrev pub Chosen : Text → Text → Type 0
Chosen [] v = Unit
Chosen (a ∷ f) v = v ≡ a ∷ f

abbrev pub ChosenOf : {A : Type 0} → Option A → A → Type 0
ChosenOf none v = Unit
ChosenOf (some f) v = v ≡ f

not-not : (b : Bool) → not (not b) ≡ true → b ≡ true
not-not b h = ground arith

module _ (lower : Text → Text) (now : ℕ) where
  abbrev pub Searched : Text → WaCase → Type 0
  Searched [] c = Unit
  Searched (a ∷ q) c = Holds (haystack lower now c) (lower (a ∷ q))

  abbrev pub InCategory : Text → List Text → Type 0
  InCategory [] cats = Unit
  InCategory (a ∷ k) cats = In (a ∷ k) cats

  abbrev pub IsPast : Option ℕ → Type 0
  IsPast none = ⊥
  IsPast (some t) = t < now

  -- Still active, and its deadline is a date in the past.
  abbrev pub Overdue : Bool → WaCase → Type 0
  Overdue false c = Unit
  Overdue true c = (is_active c.cstatus ≡ true) × IsPast (parse c.sla_due_at)

  -- What every filter that is set asks of a case.
  pub record Passes (rf : ReviewFilters) (c : WaCase) : Type 0 where
    pub search : Searched rf.q c
    pub brand : Chosen rf.brand c.brand
    pub store : Chosen rf.store c.store
    pub risk : ChosenOf rf.risk c.risk_level
    pub sent : ChosenOf rf.sent c.sentiment
    pub status : ChosenOf rf.status c.cstatus
    pub category : InCategory rf.cat c.categories
    pub overdue : Overdue rf.overdue c

  misses_iff : (f v : Text) → (not (misses f v) ≡ true) ↔ Chosen f v
  misses_iff [] v = ground arith
  misses_iff (a ∷ f) v = ground (arith, text_eq_iff v (a ∷ f))

  risk_iff :
      (o : Option RiskLevel) (v : RiskLevel) → (not (misses_choice o v) ≡ true) ↔ ChosenOf o v
  risk_iff none v = ground arith
  risk_iff (some f) v = ground (arith, risk_eq_iff v f)

  sent_iff :
      (o : Option Sentiment) (v : Sentiment) → (not (misses_choice o v) ≡ true) ↔ ChosenOf o v
  sent_iff none v = ground arith
  sent_iff (some f) v = ground (arith, sentiment_eq_iff v f)

  status_iff :
      (o : Option CaseStatus) (v : CaseStatus) → (not (misses_choice o v) ≡ true) ↔ ChosenOf o v
  status_iff none v = ground arith
  status_iff (some f) v = ground (arith, status_eq_iff v f)

  search_iff :
      (q : Text) (c : WaCase)
      → (not (not (is_empty q) && not (has_substring (haystack lower now c) (lower q))) ≡ true)
        ↔ Searched q c
  search_iff [] c = (λ _. tt, λ _. refl)
  search_iff (a ∷ q) c =
      let e = has_substring_iff (haystack lower now c) (lower (a ∷ q)) in
      (λ h. e.0 (not-not _ h), λ h. rw (e.1 h) refl)

  category_iff :
      (k : Text) (cats : List Text)
      → (not (not (is_empty k) && not (includes k cats)) ≡ true) ↔ InCategory k cats
  category_iff [] cats = (λ _. tt, λ _. refl)
  category_iff (a ∷ k) cats =
      let e = includes_iff (a ∷ k) cats in (λ h. e.0 (not-not _ h), λ h. rw (e.1 h) refl)

  is_past_iff : (o : Option ℕ) → (is_past o now ≡ true) ↔ IsPast o
  is_past_iff none = ground arith
  is_past_iff (some t) = ground arith

  Overdue-iff :
      (b : Bool) (c : WaCase) → (not (b && not (is_overdue lower now c)) ≡ true) ↔ Overdue b c
  Overdue-iff false c = (λ _. tt, λ _. refl)
  Overdue-iff true c =
      let e = is_past_iff (parse c.sla_due_at) in
      (
        λ h. let (x, y) = (and-eq-true_iff _ _).0 (not-not _ h) in (x, e.0 y),
        λ h. rw (h.0, e.1 h.1) refl,
      )

  passes_iff : (rf : ReviewFilters) (c : WaCase) → (passes lower now rf c ≡ true) ↔ Passes rf c
  unfolding passes
  passes_iff rf c =
      let search = search_iff rf.q c in
      let brand = misses_iff rf.brand c.brand in
      let store = misses_iff rf.store c.store in
      let risk = risk_iff rf.risk c.risk_level in
      let sent = sent_iff rf.sent c.sentiment in
      let status = status_iff rf.status c.cstatus in
      let category = category_iff rf.cat c.categories in
      let overdue = Overdue-iff rf.overdue c in
      (
        λ h.
            let (h₇, o) = (and-eq-true_iff _ _).0 h in
            let (h₆, k) = (and-eq-true_iff _ _).0 h₇ in
            let (h₅, st) = (and-eq-true_iff _ _).0 h₆ in
            let (h₄, se) = (and-eq-true_iff _ _).0 h₅ in
            let (h₃, ri) = (and-eq-true_iff _ _).0 h₄ in
            let (h₂, sh) = (and-eq-true_iff _ _).0 h₃ in
            let (q, b) = (and-eq-true_iff _ _).0 h₂ in
            record {
              search = search.0 q;
              brand = brand.0 b;
              store = store.0 sh;
              risk = risk.0 ri;
              sent = sent.0 se;
              status = status.0 st;
              category = category.0 k;
              overdue = overdue.0 o;
            },
        λ h.
            rw
              (
                search.1 h.search,
                brand.1 h.brand,
                store.1 h.store,
                risk.1 h.risk,
                sent.1 h.sent,
                status.1 h.status,
                category.1 h.category,
                overdue.1 h.overdue,
              )
              refl,
      )

  -- A case is listed exactly if it is among the cases and meets every filter that is set: the search
  -- text stands in its texts up to upper and lower case, its brand, store, risk, sentiment and status
  -- are those chosen, the chosen category is one of its own, and, where only overdue cases are asked
  -- for, it is active and its deadline is a date in the past.
  pub review_filters_iff :
      (rf : ReviewFilters) (c : WaCase) (xs : List WaCase)
      → In c (review_filters lower now rf xs) ↔ (In c xs × Passes rf c)
  unfolding review_filters
  review_filters_iff rf c xs = In-filter_iff _ _ (passes_iff rf) c xs

  -- With the filters cleared, everything is listed.
  pub review_filters-no_filters : (xs : List WaCase) → review_filters lower now no_filters xs ≡ xs
  unfolding review_filters
  review_filters-no_filters [] = refl
  review_filters-no_filters (c ∷ xs) = ap (λ ys. c ∷ ys) (review_filters-no_filters xs)
