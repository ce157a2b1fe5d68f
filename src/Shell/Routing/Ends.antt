-- ===== src/Shell/Routing/Ends.antt =====
-- The redirects of the admin client end, on a page, and the side bar leads to pages.
use wachen.Base.{
  ◌≡◌, ◌≢◌, refl, ℕ, suc, true, List, [], ◌∷◌, Option, none, some, Text, utf16, text_Eq, text_eq,
  text_eq_iff, includes, get, ◌⊎◌, inl, inr, arith, Bool-cases,
}
use wachen.Base.Predicates.{In, All, includes_iff}
use wachen.Roles.Table.{RoleId, hq, roles}
use wachen.Roles.Session.{RoleState}
use wachen.Roles.Scope.{truthy}
use wachen.Shell.Routing.{
  Element, login_page, home, to_root, page, views, route_table, patterns, is_static, IsRouter,
  leads, shows, draw, element_at, settle,
}

-- A page of the client, and no redirect.
abbrev pub IsPage : Element → Type 0
IsPage home = ⊥
IsPage to_root = ⊥
IsPage _ = Unit

-- Without a token, the page of the login; with one, any page.
abbrev pub Lands : Option Text → Element → Type 0
Lands none e = e ≡ login_page
Lands (some _) e = IsPage e

get-In :
    (q : Text) (table : List (Text × Element))
    → In q (patterns table)
    → (e : Element) × (get q table ≡ some e)
get-In q [] m = absurd m
get-In q ((k, e) ∷ table) (inl h) = (e, ground (arith, text_eq_iff k q, h))
get-In q ((k, e) ∷ table) (inr m) = elim (Bool-cases (text_eq k q)) [
  | inl h ↦ (e, rw h refl)
  | inr h ↦ let (d, g) = get-In q table m in (d, rw h g)
]

-- A path of the table as it stands, with what it draws.
abbrev pub IsAt : Text → Element → Type 0
IsAt p e =
    (includes p (patterns route_table) ≡ true) × (is_static p ≡ true) × (get p route_table ≡ some e)

pub views-IsAt : All (λ p. IsAt p (page p)) views
unfolding views route_table
views-IsAt = ground arith

star-In : In (utf16 "*") (patterns route_table)
unfolding route_table views
star-In = (includes_iff (utf16 "*") (patterns route_table)).0 refl

pub root-IsAt : IsAt (utf16 "/") home
unfolding route_table views
root-IsAt = (refl, refl, refl)

pub login-IsAt : IsAt (utf16 "/login") login_page
unfolding route_table views
login-IsAt = (refl, refl, refl)

pub home-IsAt :
    (first : Text) (id : RoleId) → IsAt (roles first id).home (page (roles first id).home)
unfolding route_table views roles
home-IsAt first hq = (refl, refl, refl)
home-IsAt first _ = (refl, refl, refl)

home-to_root : home ≢ to_root
home-to_root e = cc

module _ (pick : List Text → Text → Option Text) (router : IsRouter pick) where
  pub element-IsAt : (p : Text) (e : Element) → IsAt p e → element_at pick p ≡ some e
  unfolding element_at
  element-IsAt p e (h, k, g) = rw (router.exact (patterns route_table) p h k) g

  element-some : (p : Text) → (e : Element) × (element_at pick p ≡ some e)
  unfolding element_at
  element-some p =
      let (q, h) = router.fits (patterns route_table) p star-In in
      let (e, g) = get-In q route_table (router.chosen (patterns route_table) p q h) in (e, rw h g)

  module _ (first account : Text) (token : Option Text) (s : RoleState) where
    abbrev pub Leads : Text → Element → Text → Type 0
    Leads p e to = draw pick first account token s p e ≡ leads to

    abbrev pub Shown : Text → Element → Type 0
    Shown p e = (draw pick first account token s p e ≡ shows e) × Lands (truthy token) e

    abbrev pub Settled : ℕ → Text → Type 0
    Settled n p =
        (r : Text × Element) × (settle pick first account token s n p ≡ some r)
        × Lands (truthy token) r.1

    draw-to_root : (p : Text) → Leads p to_root (utf16 "/")
    unfolding draw
    draw-to_root p = refl

    settle-Shown :
        (n : ℕ) (p : Text) (e : Element)
        → element_at pick p ≡ some e
        → Shown p e
        → Settled (suc n) p
    unfolding settle
    settle-Shown n p e h (k, l) = ((p, e), rw (h, k) refl, l)

    settle-Leads :
        (n : ℕ) (p to : Text) (e : Element)
        → element_at pick p ≡ some e
        → Leads p e to
        → Settled n to
        → Settled (suc n) p
    unfolding settle
    settle-Leads n p to e h k (r, g, l) = (r, rw (h, k) g, l)

    -- Where each element shows itself, or leads to a page that does, everything ends there.
    pub settles :
        (landing : Text) (le : Element)
        → IsAt landing le
        → Shown landing le
        → ((p : Text) (e : Element) → Shown p e ⊎ Leads p e landing ⊎ (e ≡ to_root))
        → (n : ℕ) (p : Text) → Settled (suc (suc (suc n))) p
    settles landing le h k each n p =
        let landed = λ (m : ℕ). settle-Shown m landing le (element-IsAt landing le h) k in
        let at_root : Settled (suc (suc n)) (utf16 "/") = elim (each (utf16 "/") home) [
          | inl shown ↦ settle-Shown (suc n) _ home (element-IsAt _ home root-IsAt) shown
          | inr (inl l) ↦
              settle-Leads (suc n) _ landing home (element-IsAt _ home root-IsAt) l (landed n)
          | inr (inr e) ↦ absurd (home-to_root e)
        ] in
        let (e, g) = element-some p in
        elim (each p e) [
          | inl shown ↦ settle-Shown (suc (suc n)) p e g shown
          | inr (inl l) ↦ settle-Leads (suc (suc n)) p landing e g l (landed (suc n))
          | inr (inr r) ↦
              settle-Leads (suc (suc n)) p (utf16 "/") e g (rw r (draw-to_root p)) at_root
        ]
