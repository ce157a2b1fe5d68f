-- ===== src/Shell/Routing/SimpleRouter.antt =====
-- A router that knows static patterns, the one pattern with a parameter, and `*`; the runs of the routes
-- use it.
use wachen.Base.{
  ◌≡◌, refl, ap, Bool, true, false, ◌&&◌, List, Option, none, some, Text, utf16, text_Eq, includes,
  starts_with,
}
use wachen.Base.Predicates.{In, includes_iff}
use wachen.Shell.Routing.{is_static, IsRouter}

abbrev first_of : Bool → Text → Option Text → Option Text
first_of true p rest = some p
first_of false p rest = rest

abbrev is_spelled : List Text → Text → Bool
is_spelled ps p = includes p ps && is_static p

abbrev is_of_case : List Text → Text → Bool
is_of_case ps p = includes (utf16 "/cases/:id") ps && starts_with p (utf16 "/cases/")

abbrev catch_all : List Text → Option Text
catch_all ps = first_of (includes (utf16 "*") ps) (utf16 "*") none

abbrev by_pattern : List Text → Text → Option Text
by_pattern ps p = first_of (is_of_case ps p) (utf16 "/cases/:id") (catch_all ps)

abbrev pub pick : List Text → Text → Option Text
pick ps p = first_of (is_spelled ps p) p (by_pattern ps p)

first_of-In :
    (ps : List Text) (b : Bool) (p : Text) (rest : Option Text)
    → (b ≡ true → includes p ps ≡ true)
    → ((q : Text) → rest ≡ some q → In q ps)
    → (q : Text) → first_of b p rest ≡ some q
    → In q ps
first_of-In ps true p rest h k q e = (includes_iff q ps).0 (rw (some-inj e) at (h refl))
  where
    some-inj : {a b : Text} → some a ≡ some b → a ≡ b
    some-inj {a} p = ap (λ (o : Option Text). elim o [ none ↦ a | some x ↦ x ]) p
first_of-In ps false p rest h k q e = k q e

first_of-some :
    (b : Bool) (p : Text) (rest : Option Text)
    → (q : Text) × (rest ≡ some q)
    → (q : Text) × (first_of b p rest ≡ some q)
first_of-some true p rest h = (p, refl)
first_of-some false p rest h = h

and_left : (a b : Bool) → (a && b) ≡ true → a ≡ true
and_left true b h = refl
and_left false b h = h

pub pick-IsRouter : IsRouter pick
pick-IsRouter = record {
  exact = λ ps p h k. rw (h, k) refl;
  chosen = λ ps p.
      first_of-In ps _ _ _ (and_left _ _)
        (first_of-In ps _ _ _ (and_left _ _) (first_of-In ps _ _ _ (λ h. h) (λ q e. cc)));
  fits = λ ps p m. first_of-some (is_spelled ps p) p (by_pattern ps p) (
      first_of-some (is_of_case ps p) (utf16 "/cases/:id") (catch_all ps)
        (utf16 "*", rw ((includes_iff (utf16 "*") ps).1 m) refl));
}
