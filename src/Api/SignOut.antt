-- ===== src/Api/SignOut.antt =====
-- When a call of the admin client signs the user out, and what the shell does then.
use wachen.Base.{
  ◌≡◌, refl, ◌∙◌, Bool, true, false, not, ◌&&◌, List, [], ◌++◌, Option, none, some, Text, utf16,
  nat_eq, ◌==◌, Bool-cases, inl, inr, if◌then◌else◌, starts_with, leb,
}
use wachen.Roles.Session.{RoleState}
use wachen.Shell.{redirect, shell}
use wachen.Api.{
  Browser, Response, Headers, headers, ended, Call, login, method, body, path, request, api, clear,
  backend_role,
}
use wachen.Api.Types.{CaseFilters}

abbrev pub is_login : Call → Bool
is_login (login email password) = true
is_login _ = false

path-is_login :
    (encode : CaseFilters → Text) (c : Call)
    → starts_with (path encode c) (utf16 "/login") ≡ is_login c
unfolding path
path-is_login encode (login email password) = refl
path-is_login encode _ = refl

-- Signed out, and sent to the login page.
abbrev pub signed_out : Browser → Browser
signed_out b = record {
  storage = record { token = none; name = none; role = none };
  location = utf16 "/login";
}

abbrev pub refused : {A : Type 0} → Option (Response A) → Bool
refused none = false
refused (some r) = r.status == 401

ended-browser :
    {A : Type 0} (p : Text) (o : Option (Response A)) (b : Browser)
    → (ended p o b).1
      ≡ (if refused o && not (starts_with p (utf16 "/login")) then signed_out b else b)
unfolding clear
ended-browser p none b = refl
ended-browser p (some r) b =
    elim (Bool-cases (r.status == 401 && not (starts_with p (utf16 "/login")))) [
      | inl e ↦ rw e refl
      | inr e ↦ rw e (elim (Bool-cases (leb 200 r.status && leb r.status 299)) [
        | inl f ↦ rw f refl
        | inr f ↦ rw f refl
      ])
    ]

module _ {A : Type 0}
    (fetch : Option Text → Text → Headers → List (Text × Text) → Option (Response A))
    (encode : CaseFilters → Text) where
  -- The answer that a call gets.
  abbrev pub reply : Call → Browser → Option (Response A)
  reply c b =
      fetch (method c) (utf16 "/api/v1" ++ path encode c) (headers b.storage.token []) (body c)

  -- A call clears the account and sends the browser to the login page exactly if the backend answers
  -- 401 and the call is not the login itself, whatever ids and filters it carries; else nothing of
  -- the account or the place changes.
  pub api-browser :
      (c : Call) (b : Browser)
      → (api fetch encode c b).1
        ≡ (if refused (reply c b) && not (is_login c) then signed_out b else b)
  unfolding api request
  api-browser c b = ended-browser (path encode c) (reply c b) b ∙ rw (path-is_login encode c) refl

  -- After a call that the backend answered with 401, other than the login, the shell draws no page
  -- any more, whatever the role and the page: it leads to the login.
  pub refused-shell :
      (c : Call) (b : Browser) (first : Text) (s : RoleState) (pathname : Text)
      → is_login c ≡ false
      → refused (reply c b) ≡ true
      → let after = (api fetch encode c b).1 in
        shell first (backend_role after.storage) after.storage.token s pathname
        ≡ redirect (utf16 "/login")
  unfolding shell
  refused-shell c b first s pathname other turned_away =
      rw (api-browser c b, turned_away, other) refl
