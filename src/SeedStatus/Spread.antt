-- ===== src/SeedStatus/Spread.antt =====
-- What the ladders of `seedStatus` give.
use wachen.Base.{
  ℕ, ◌≡◌, refl, ◌↔◌, inl, inr, true, [], ◌∷◌, Option, none, some, Text, arith, subst, utf16,
}
use wachen.Base.Predicates.{In}
use wachen.Domain.{
  RiskLevel, high, medium, low, CaseStatus, unassigned, open_, in_progress, pending_review,
  pending_customer, done, closed, is_active,
}
use wachen.SeedStatus.{seed_number, seed_from, seed_status}

-- The statuses that a risk level can start with.
abbrev pub Starts : RiskLevel → CaseStatus → Type 0
Starts high s = In s (in_progress ∷ open_ ∷ unassigned ∷ [])
Starts medium s =
    In s (done ∷ closed ∷ in_progress ∷ pending_customer ∷ pending_review ∷ unassigned ∷ open_ ∷ [])
Starts low s = In s (closed ∷ done ∷ in_progress ∷ unassigned ∷ open_ ∷ [])

seed_from-Starts : (r : RiskLevel) (n : Option ℕ) → Starts r (seed_from r n)
unfolding seed_from
seed_from-Starts high n = ground arith
seed_from-Starts medium n = ground arith
seed_from-Starts low n = ground arith

-- An id with no hexadecimal digit draws what the number 99 draws.
seed_from-none : (r : RiskLevel) → seed_from r none ≡ seed_from r (some 99)
unfolding seed_from
seed_from-none high = refl
seed_from-none _ = refl

seed_status-Starts : (id : Text) (r : RiskLevel) → Starts r (seed_status id r)
unfolding seed_status
seed_status-Starts id r = seed_from-Starts r (seed_number id)

-- An id that draws the status at each place of the lists above.
Starts-attained :
    (r : RiskLevel) (s : CaseStatus) → Starts r s → (id : Text) × (seed_status id r ≡ s)
unfolding seed_status
Starts-attained high s (inl e) = (utf16 "00", e)
Starts-attained high s (inr (inl e)) = (utf16 "3c", e)
Starts-attained high s (inr (inr (inl e))) = (utf16 "55", e)
Starts-attained high s (inr (inr (inr e))) = absurd e
Starts-attained medium s (inl e) = (utf16 "00", e)
Starts-attained medium s (inr (inl e)) = (utf16 "12", e)
Starts-attained medium s (inr (inr (inl e))) = (utf16 "1c", e)
Starts-attained medium s (inr (inr (inr (inl e)))) = (utf16 "2d", e)
Starts-attained medium s (inr (inr (inr (inr (inl e))))) = (utf16 "3a", e)
Starts-attained medium s (inr (inr (inr (inr (inr (inl e)))))) = (utf16 "46", e)
Starts-attained medium s (inr (inr (inr (inr (inr (inr (inl e))))))) = (utf16 "52", e)
Starts-attained medium s (inr (inr (inr (inr (inr (inr (inr e))))))) = absurd e
Starts-attained low s (inl e) = (utf16 "00", e)
Starts-attained low s (inr (inl e)) = (utf16 "20", e)
Starts-attained low s (inr (inr (inl e))) = (utf16 "34", e)
Starts-attained low s (inr (inr (inr (inl e)))) = (utf16 "3e", e)
Starts-attained low s (inr (inr (inr (inr (inl e))))) = (utf16 "46", e)
Starts-attained low s (inr (inr (inr (inr (inr e))))) = absurd e

-- The statuses that the ids can draw at a risk level are exactly those of `Starts`.
pub Starts-iff :
    (r : RiskLevel) (s : CaseStatus) → Starts r s ↔ ((id : Text) × (seed_status id r ≡ s))
Starts-iff r s = (Starts-attained r s, λ d. subst (Starts r) d.1 (seed_status-Starts d.0 r))

-- A high-risk case starts active, whatever its id.
pub seed_status-high_active : (id : Text) → is_active (seed_status id high) ≡ true
unfolding seed_status seed_from
seed_status-high_active id = ground arith

-- An id with no hexadecimal digit, whose number is `NaN`, draws what the number 99 draws, at every
-- risk level.
pub seed_status-NaN :
    (id : Text) (r : RiskLevel) → seed_number id ≡ none → seed_status id r ≡ seed_from r (some 99)
unfolding seed_status
seed_status-NaN id r h = rw h (seed_from-none r)
