-- ===== src/Shell/Routing.antt =====
-- The routes of `App` of `admin/src/App.tsx`, and the redirects between them: `Home`, the catch-all
-- route, and those of the shell. The router is not part of the program: `pick` gives the pattern that
-- it chooses for a pathname, and `IsRouter` says what react-router documents of that choice.
pub mod Ends
pub mod Navigation
pub mod SideBar
pub mod SimpleRouter
use wachen.Base.{
  ◌≡◌, ℕ, zero, suc, Bool, true, false, not, ◌&&◌, List, [], ◌∷◌, ◌++◌, map, Option, none, some,
  Text, utf16, text_Eq, includes, nat_eq, get, if◌then◌else◌,
}
use wachen.Base.Predicates.{In}
use wachen.Roles.Table.{roles}
use wachen.Roles.Session.{RoleState, set_role}
use wachen.Roles.Table.{RoleId}
use wachen.Shell.{Screen, redirect, frame, shell}

-- What a route draws; all but the page of the login and the catch-all stand in the shell.
pub data Element : Type 0 where
  login_page home case_page to_root : Element
  page : Text → Element

-- VIEWS, by their paths.
unfoldable pub views : List Text
views =
    utf16 "/dashboard"
    ∷ utf16 "/store"
    ∷ utf16 "/reviews"
    ∷ utf16 "/cases"
    ∷ utf16 "/sla"
    ∷ utf16 "/stores"
    ∷ utf16 "/causes"
    ∷ utf16 "/voice"
    ∷ utf16 "/ai"
    ∷ utf16 "/tasks"
    ∷ utf16 "/improve"
    ∷ utf16 "/notifications"
    ∷ utf16 "/reports"
    ∷ utf16 "/rules"
    ∷ utf16 "/org"
    ∷ utf16 "/sources"
    ∷ utf16 "/inbox"
    ∷ utf16 "/pipeline"
    ∷ utf16 "/approvals"
    ∷ []

unfoldable pub route_table : List (Text × Element)
unfolding views
route_table =
    (utf16 "/login", login_page) ∷ (utf16 "/", home) ∷ map (λ p. (p, page p)) views
    ++ (utf16 "/cases/:id", case_page) ∷ (utf16 "*", to_root) ∷ []

abbrev pub patterns : List (Text × Element) → List Text
patterns table = map (λ r. r.0) table

-- A pattern without parameters and without `*`.
abbrev pub is_static : Text → Bool
is_static p = not (includes b':' p) && not (includes b'*' p)

-- A static pattern is chosen for the pathname that it spells, only patterns of the table are chosen, and
-- `*` fits every pathname.
pub record IsRouter (pick : List Text → Text → Option Text) : Type 0 where
  pub exact :
      (ps : List Text) (p : Text) → includes p ps ≡ true → is_static p ≡ true → pick ps p ≡ some p
  pub chosen : (ps : List Text) (p q : Text) → pick ps p ≡ some q → In q ps
  pub fits : (ps : List Text) (p : Text) → In (utf16 "*") ps → (q : Text) × (pick ps p ≡ some q)

pub data Drawn : Type 0 where
  leads : Text → Drawn
  shows : Element → Drawn

-- What the shell, with an element in it, leads to or shows; `Home` leads to the home of `getRole()`.
unfoldable pub in_shell : Text → Element → Screen → Drawn
in_shell own_home e (redirect to) = leads to
in_shell own_home home (frame f) = leads own_home
in_shell own_home e (frame f) = shows e

-- The element of the pattern that is chosen.
abbrev pub in_table : Option Text → Option Element
in_table none = none
in_table (some p) = get p route_table

unfoldable pub element_at : (List Text → Text → Option Text) → Text → Option Element
element_at pick pathname = in_table (pick (patterns route_table) pathname)

-- Without a route, nothing is drawn; a redirect goes on at its target.
abbrev pub through : (Element → Option (Text × Element)) → Option Element → Option (Text × Element)
through k none = none
through k (some e) = k e

abbrev pub follow : (Text → Option (Text × Element)) → Text → Drawn → Option (Text × Element)
follow k pathname (shows e) = some (pathname, e)
follow k pathname (leads to) = k to

module _ (pick : List Text → Text → Option Text) (first account : Text) (token : Option Text)
    (s : RoleState) where
  unfoldable pub draw : Text → Element → Drawn
  unfolding in_shell
  draw pathname login_page = shows login_page
  draw pathname to_root = leads (utf16 "/")
  draw pathname e = in_shell (roles first s.role_id).home e (shell first account token s pathname)

  -- Where the browser ends, after less than `n` redirects: the pathname, and what is shown there.
  unfoldable pub settle : ℕ → Text → Option (Text × Element)
  unfolding draw element_at
  settle zero pathname = none
  settle (suc n) pathname =
      through (λ e. follow (λ to. settle n to) pathname (draw pathname e))
        (element_at pick pathname)

-- The select of the roles in the bar at the top: the new state, and where it leads; where `setItem`
-- throws, nothing is left of the handler to lead anywhere.
unfoldable pub choose_role : Text → RoleId → RoleState → RoleState × Option Text
unfolding set_role
choose_role first id s =
    let r = set_role id s in (r.0, if r.1 then none else some (roles first id).home)
