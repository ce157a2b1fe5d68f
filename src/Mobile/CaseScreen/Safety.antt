-- ===== src/Mobile/CaseScreen/Safety.antt =====
-- What the buttons of the screen of a case can do, and what it shows of the customer.
use wachen.Base.{
  ◌≡◌, refl, sym, ap, ◌↔◌, Bool, true, false, Option, none, some, Text, List, [], ◌∷◌, map, any,
  ◌==◌, ==_refl, Bool-cases, inl, inr, arith,
}
use wachen.Base.Predicates.{In}
use wachen.Domain.{CaseStatus, status_Eq}
use wachen.CaseMachine.{Transition, can_transition, case_transitions}
use wachen.CaseMachine.Graph.{◌⟶◌, can_transition_iff}
use wachen.Mobile.Domain.{Case}
use wachen.Mobile.Roles.{Role}
use wachen.Mobile.CaseScreen.{Button, button, screen_of, press}

some-inj : {p q : Text × CaseStatus} → some p ≡ some q → p ≡ q
some-inj {p} h = ap (λ (o : Option (Text × CaseStatus)). elim o [ none ↦ p | some x ↦ x ]) h

press-button :
    (pending : Bool) (c : Case) (tr : Transition) (i : Text) (t : CaseStatus)
    → press (button pending tr) c ≡ some (i, t)
    → (pending ≡ false) × (i ≡ c.id) × (tr.to ≡ t)
unfolding press button
press-button true c tr i t e = cc
press-button false c tr i t e = let p = some-inj e in (refl, sym (ap (λ x. x.0) p), ap (λ x. x.1) p)

-- Some button asks for the status `t` of the case with the id `i`.
abbrev pub Asks : Case → List Button → Text → CaseStatus → Type 0
Asks c bs i t = (b : Button) × In b bs × (press b c ≡ some (i, t))

Asks-any :
    (pending : Bool) (c : Case) (i : Text) (t : CaseStatus) (ts : List Transition)
    → Asks c (map (button pending) ts) i t
    → (pending ≡ false) × (i ≡ c.id) × (any (λ tr. tr.to == t) ts ≡ true)
Asks-any pending c i t [] (b, m, e) = absurd m
Asks-any pending c i t (tr ∷ ts) (b, inl p, e) =
    let (q, r, s) = press-button pending c tr i t (rw (← p) at e) in (q, r, rw (s, ==_refl t) refl)
Asks-any pending c i t (tr ∷ ts) (b, inr m, e) =
    let (q, r, s) = Asks-any pending c i t ts (b, m, e) in (q, r, ground arith)

any-Asks :
    (c : Case) (t : CaseStatus) (ts : List Transition)
    → any (λ tr. tr.to == t) ts ≡ true
    → Asks c (map (button false) ts) c.id t
unfolding press button
any-Asks c t [] h = cc
any-Asks c t (tr ∷ ts) h = elim (Bool-cases (tr.to == t)) [
  | inl e ↦
      let same : tr.to ≡ t = (status_Eq.equals_iff tr.to t).0 e in
      (button false tr, inl refl, ap (λ s. some (c.id, s)) same)
  | inr e ↦ let (b, m, k) = any-Asks c t ts (rw e at h) in (b, inr m, k)
]

-- The buttons of the screen ask for exactly the changes of status that the diagram has from the status
-- of the case, and for this very case; while a change is under way they ask for nothing.
pub screen-Asks_iff :
    (upper : Text → Text) (role : Role) (pending : Bool) (c : Case) (i : Text) (t : CaseStatus)
    → Asks c (screen_of upper role pending c).buttons i t
      ↔ ((pending ≡ false) × (i ≡ c.id) × (c.cstatus ⟶ t))
unfolding screen_of can_transition
screen-Asks_iff upper role pending c i t = (
  (λ a.
      let (p, q, h) = Asks-any pending c i t (case_transitions c.cstatus) a in
      (p, q, (can_transition_iff c.cstatus t).0 h)),
  (λ (p, q, e).
      rw (p, q) (any-Asks c t (case_transitions c.cstatus) ((can_transition_iff c.cstatus t).1 e))),
)

-- To a role without the right to personal data, the screen is the same whatever the customer is called.
pub screen-author_name :
    (upper : Text → Text) (role : Role) (pending : Bool) (c : Case) (a b : Text)
    → role.pii ≡ false
    → screen_of upper role pending (record c { author_name = a })
      ≡ screen_of upper role pending (record c { author_name = b })
unfolding screen_of wachen.Mobile.Roles.mask_pii
screen-author_name upper role pending c a b h = rw h refl
