-- ===== src/Base/LastBy.antt =====
-- An object made by `Object.fromEntries` from the elements of an array, by their key: of the elements
-- with one key it keeps the last.
use mathlib.Core.Path.{◌≡◌, refl, ap}
use mathlib.Core.Logic.{◌≢◌, inl, inr}
use mathlib.Core.Option
use mathlib.Core.Option.{Option, none, some}
use mathlib.Core.List.{List, [], ◌∷◌, map}
use native.Mathlib.Omega.{arith}
use wachen.Base.Tests.{if◌then◌else◌, is_some, Option-cases, Bool-cases}
use wachen.Base.Utf16.{Text, text_eq, text_eq_iff}
use wachen.Base.Predicates.{All, In, Distinct, Pairs}

module _ {A : Type 0} (key : A → Text) where
  unfoldable pub last_by : Text → List A → Option A
  last_by k [] = none
  last_by k (c ∷ cs) = elim (last_by k cs) [
    | none ↦ if text_eq (key c) k then some c else none
    | some d ↦ some d
  ]

  -- A write to the element that `last_by` finds.
  unfoldable pub update_last_by : Text → (A → A) → List A → List A
  unfolding last_by
  update_last_by k f [] = []
  update_last_by k f (c ∷ cs) =
      if is_some (last_by k cs)
      then c ∷ update_last_by k f cs
      else (if text_eq (key c) k then f c ∷ cs else c ∷ cs)

  pub last_by-key : (k : Text) (cs : List A) {c : A} → last_by k cs ≡ some c → key c ≡ k
  unfolding last_by
  last_by-key k [] h = cc
  last_by-key k (d ∷ cs) {c} h = elim (Option-cases (last_by k cs)) [
    | inl e ↦ ground (arith, text_eq_iff (key d) k)
    | inr (b, e) ↦ last_by-key k cs (ground arith)
  ]

  pub last_by-update :
      (k j : Text) (f : A → A)
      → ((c : A) → key (f c) ≡ key c)
      → (cs : List A)
      → last_by j (update_last_by k f cs)
        ≡ (if text_eq k j then Option.map f (last_by j cs) else last_by j cs)
  unfolding last_by update_last_by
  last_by-update k j f keep [] = ground arith
  last_by-update k j f keep (c ∷ cs) = ground (
    arith,
    keep c,
    text_eq_iff k j,
    text_eq_iff (key c) j,
    text_eq_iff (key c) k,
    text_eq_iff (key (f c)) j,
    last_by-update k j f keep cs,
  )

  pub update-All :
      (P : A → Type 0) (k : Text) (f : A → A)
      → ((c : A) → P c → P (f c))
      → (cs : List A) → All P cs
      → All P (update_last_by k f cs)
  unfolding update_last_by
  update-All P k f step [] h = tt
  update-All P k f step (c ∷ cs) (h, hs) = elim (Bool-cases (is_some (last_by k cs))) [
    | inl e ↦ rw e (h, update-All P k f step cs hs)
    | inr e ↦ rw e (elim (Bool-cases (text_eq (key c) k)) [
      | inl t ↦ rw t (step c h, hs)
      | inr t ↦ rw t (h, hs)
    ])
  ]

  pub map-update :
      {B : Type 0} (g : A → B) (k : Text) (f : A → A)
      → ((c : A) → g (f c) ≡ g c)
      → (cs : List A) → map g (update_last_by k f cs) ≡ map g cs
  unfolding update_last_by
  map-update g k f keep [] = refl
  map-update g k f keep (c ∷ cs) = elim (Bool-cases (is_some (last_by k cs))) [
    | inl e ↦ rw e (ap (λ r. g c ∷ r) (map-update g k f keep cs))
    | inr e ↦ rw e (elim (Bool-cases (text_eq (key c) k)) [
      | inl t ↦ rw t (ap (λ b. b ∷ map g cs) (keep c))
      | inr t ↦ rw t refl
    ])
  ]

  pub last_by-absent :
      (k : Text) (cs : List A) → All (λ y. y ≢ k) (map key cs) → last_by k cs ≡ none
  unfolding last_by
  last_by-absent k [] _ = refl
  last_by-absent k (c ∷ cs) (h, hs) = ground (arith, last_by-absent k cs hs, text_eq_iff (key c) k)

  In-key-ne :
      (k : Text) (cs : List A) → All (λ y. y ≢ k) (map key cs) → {c : A} → In c cs → key c ≢ k
  In-key-ne k [] _ m = absurd m
  In-key-ne k (d ∷ cs) (h, hs) (inl e) = rw e at h
  In-key-ne k (d ∷ cs) (h, hs) (inr m) = In-key-ne k cs hs m

  -- Where no two keys are equal, every element is found under its key.
  pub last_by-In :
      (cs : List A) → Distinct (map key cs) → {c : A} → In c cs → last_by (key c) cs ≡ some c
  unfolding last_by
  last_by-In [] _ m = absurd m
  last_by-In (d ∷ cs) (h, hs) {c} (inl e) =
      ground (arith, last_by-absent (key d) cs h, text_eq_iff (key d) (key c), e)
  last_by-In (d ∷ cs) (h, hs) {c} (inr m) = rw (last_by-In cs hs m, last_by) refl

  pub update-Pairs :
      {B : Type 0} (R : B → A → Type 0) (k : Text) (f : A → A)
      → ((b : B) (c : A) → R b c → R b (f c))
      → (bs : List B) (cs : List A) → Pairs R bs cs
      → Pairs R bs (update_last_by k f cs)
  unfolding update_last_by
  update-Pairs R k f step [] [] h = tt
  update-Pairs R k f step [] (c ∷ cs) h = absurd h
  update-Pairs R k f step (b ∷ bs) [] h = absurd h
  update-Pairs R k f step (b ∷ bs) (c ∷ cs) (h, hs) = elim (Bool-cases (is_some (last_by k cs))) [
    | inl e ↦ rw e (h, update-Pairs R k f step bs cs hs)
    | inr e ↦ rw e (elim (Bool-cases (text_eq (key c) k)) [
      | inl t ↦ rw t (step b c h, hs)
      | inr t ↦ rw t (h, hs)
    ])
  ]
