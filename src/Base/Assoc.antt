-- ===== src/Base/Assoc.antt =====
-- `Map` of JavaScript: its entries in the order of their first insertion.
use Prim.Native.Nat.{ℕ, ◌+◌}
use mathlib.Core.Path.{◌≡◌, refl, sym, ap, ◌∙◌}
use mathlib.Core.Logic.{inl, inr, ◌≢◌}
use mathlib.Core.Option.{Option, none, some}
use mathlib.Core.List.{List, [], ◌∷◌, map}
use native.Mathlib.Omega.{arith}
use wachen.Base.Tests.{if◌then◌else◌, Eq, ◌==◌, Bool-cases, ==_refl, ne-==}
use wachen.Base.Lists.{sum}
use wachen.Base.Predicates.{All, In, Distinct}

abbrev pub weight {κ} : {V : Type κ} → (V → ℕ) → Option V → ℕ
weight g none = 0
weight g (some v) = g v

module _ {ℓ κ} {K : Type ℓ} {V : Type κ} ⦃e : Eq K⦄ where
  -- `m.get(k)`
  abbrev pub get : K → List (K × V) → Option V
  get k [] = none
  get k ((j, v) ∷ m) = if j == k then some v else get k m

  -- `m.set(k, v)`
  abbrev pub put : K → V → List (K × V) → List (K × V)
  put k v [] = (k, v) ∷ []
  put k v ((j, w) ∷ m) = if j == k then (j, v) ∷ m else (j, w) ∷ put k v m

  pub get-put :
      (k j : K) (v : V) (m : List (K × V))
      → get j (put k v m) ≡ (if k == j then some v else get j m)
  get-put k j v [] = refl
  get-put k j v ((i, w) ∷ m) =
      ground (arith, e.equals_iff k j, e.equals_iff i k, e.equals_iff i j, get-put k j v m)

  -- What a write does to a total over the entries: the old value goes, the new one comes.
  pub sum-put :
      (g : V → ℕ) (k : K) (v : V) (m : List (K × V))
      → sum (λ e. g e.1) (put k v m) + weight g (get k m) ≡ sum (λ e. g e.1) m + g v
  sum-put g k v [] = omega arith
  sum-put g k v ((j, w) ∷ m) = ground (arith, sum-put g k v m)

  pub All-put {μ} :
      (P : V → Type μ) (k : K) (v : V) (m : List (K × V))
      → P v
      → All (λ e. P e.1) m
      → All (λ e. P e.1) (put k v m)
  All-put P k v [] h _ = (h, tt)
  All-put P k v ((j, w) ∷ m) h (q, hs) = elim (Bool-cases (j == k)) [
    | inl e ↦ rw e (h, hs)
    | inr e ↦ rw e (q, All-put P k v m h hs)
  ]

  pub get-All {μ} :
      (P : V → Type μ) (k : K) (m : List (K × V)) {v : V}
      → All (λ e. P e.1) m
      → get k m ≡ some v
      → P v
  get-All P k [] h e = cc
  get-All P k ((j, w) ∷ m) {v} (q, hs) e = elim (Bool-cases (j == k)) [
    | inl t ↦ let same : w ≡ v = ground arith in rw (← same) q
    | inr t ↦ get-All P k m hs (ground arith)
  ]

module _ {K V : Type 0} ⦃e : Eq K⦄ where
  All-keys-put :
      (P : K → Type 0) (k : K) (v : V) (m : List (K × V))
      → P k
      → All P (map (λ x. x.0) m)
      → All P (map (λ x. x.0) (put k v m))
  All-keys-put P k v [] h _ = (h, tt)
  All-keys-put P k v ((j, w) ∷ m) h (q, hs) = elim (Bool-cases (j == k)) [
    | inl t ↦ rw t (q, hs)
    | inr t ↦ rw t (q, All-keys-put P k v m h hs)
  ]

  -- A write keeps the keys apart.
  pub Distinct-put :
      (k : K) (v : V) (m : List (K × V))
      → Distinct (map (λ x. x.0) m)
      → Distinct (map (λ x. x.0) (put k v m))
  Distinct-put k v [] _ = (tt, tt)
  Distinct-put k v ((j, w) ∷ m) (a, d) = elim (Bool-cases (j == k)) [
    | inl t ↦ rw t (a, d)
    | inr t ↦ rw t (
      All-keys-put (λ y. y ≢ j) k v m (λ p. cc ((e.equals_iff j k).1 (sym p))) a,
      Distinct-put k v m d,
    )
  ]

  pub get-In : (k : K) (m : List (K × V)) {v : V} → get k m ≡ some v → In (k, v) m
  get-In k [] h = cc
  get-In k ((j, w) ∷ m) {v} h = elim (Bool-cases (j == k)) [
    | inl t ↦
        let same_key : j ≡ k = (e.equals_iff j k).0 t in
        let same_value : w ≡ v = ground arith in inl (cc)
    | inr t ↦ inr (get-In k m (ground arith))
  ]

  get-absent : (k : K) (m : List (K × V)) → All (λ y. y ≢ k) (map (λ x. x.0) m) → get k m ≡ none
  get-absent k [] _ = refl
  get-absent k ((j, w) ∷ m) (a, h) = rw (ne-== j k a) (get-absent k m h)

  In-key-ne :
      (j k : K) (v : V) (m : List (K × V))
      → All (λ y. y ≢ j) (map (λ x. x.0) m)
      → In (k, v) m
      → k ≢ j
  In-key-ne j k v [] _ m = absurd m
  In-key-ne j k v (x ∷ m) (a, h) (inl p) = λ q. a (ap (λ y. y.0) p ∙ q)
  In-key-ne j k v (x ∷ m) (a, h) (inr i) = In-key-ne j k v m h i

  -- Where the keys are distinct, every entry is found.
  pub In-get :
      (k : K) (v : V) (m : List (K × V))
      → Distinct (map (λ x. x.0) m)
      → In (k, v) m
      → get k m ≡ some v
  In-get k v [] _ i = absurd i
  In-get k v ((j, w) ∷ m) (a, d) (inl p) =
      let same_key : j ≡ k = ap (λ y. y.0) p in
      let same_value : w ≡ v = ap (λ y. y.1) p in rw (same_key, ==_refl k, same_value) refl
  In-get k v ((j, w) ∷ m) (a, d) (inr i) =
      rw (ne-== j k (λ q. In-key-ne j k v m a i (sym q))) (In-get k v m d i)
