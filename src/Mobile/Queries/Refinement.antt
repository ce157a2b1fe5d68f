-- ===== src/Mobile/Queries/Refinement.antt =====
-- The mock of `mobile/src/api/mock.ts` as a map from ids to cases, for the requests of the hooks of
-- `mobile/src/api/queries.ts`.
use mathlib.Core.Option
use wachen.Base.{
  ◌≡◌, refl, ◌∙◌, ap, List, [], ◌∷◌, map, Option, none, some, Text, utf16, text_eq, text_Eq,
  ==_refl, if◌then◌else◌,
}
use wachen.Base.Predicates.{All, All-imp}
use wachen.Domain.{CaseStatus}
use wachen.Mobile.Domain.{Case}
use wachen.Mobile.Mock.{
  Answer, token, case_list, one_case, facets, no_recent, mock_fetch, by_id, update_by_id, patched,
}
use wachen.Mobile.Mock.Routes.{by_id-update}
use wachen.Mobile.Queries.{
  Request, login, all_cases, all_facets, detail, update_status, create_reply, send, answers,
}
use wachen.Mobile.Queries.Typed.{
  IsFormed, HasSegment, direct, answers-direct, send-detail, send-status,
}

abbrev pub Look : Type 0
Look = Text → Option Case

-- What an answer tells: a list of cases says which case has which id.
pub data Told : Type 0 where
  nothing general pipeline : Told
  signed_in : Text → Told
  every_case : Look → Told
  the_case : Option Case → Told

abbrev pub look_of : List Case → Look
look_of cs = λ j. by_id j cs

abbrev pub told : Option Answer → Told
told none = nothing
told (some (token t)) = signed_in t
told (some (case_list cs n)) = every_case (look_of cs)
told (some (one_case c)) = the_case c
told (some facets) = general
told (some no_recent) = pipeline

-- A map from ids to cases, with one of them changed.
abbrev pub at : Text → (Case → Case) → Look → Look
at id f look = λ j. if text_eq id j then Option.map f (look j) else look j

-- What each request is to be told, and what it is to change.
abbrev pub intended : Request → Look → Told
intended login look = signed_in (utf16 "mock-token")
intended all_cases look = every_case look
intended all_facets look = general
intended (detail id) look = the_case (look id)
intended (update_status id to) look = the_case (Option.map (patched to) (look id))
intended (create_reply id content) look = nothing

abbrev pub after : Request → Look → Look
after (update_status id to) look = at id (patched to) look
after _ look = look

abbrev pub replay : List Request → Look → List (Request × Told)
replay [] look = []
replay (r ∷ rs) look = (r, intended r look) ∷ replay rs (after r look)

ext : {A B : Type 0} {f g : A → B} → ((x : A) → f x ≡ g x) → f ≡ g
ext h = λ i x. h x i

look_of-update :
    (id : Text) (to : CaseStatus) (cs : List Case)
    → look_of (update_by_id id (patched to) cs) ≡ at id (patched to) (look_of cs)
look_of-update id to cs = ext (λ j. by_id-update id j to cs)

send-intended :
    (default : CaseStatus) (r : Request) (cs : List Case)
    → HasSegment r
    → let p = direct default r cs in
      (told p.0 ≡ intended r (look_of cs)) × (look_of p.1 ≡ after r (look_of cs))
unfolding send mock_fetch
send-intended default login cs h = (refl, refl)
send-intended default all_cases cs h = (refl, refl)
send-intended default all_facets cs h = (refl, refl)
send-intended default (create_reply id content) cs h = (refl, refl)
send-intended default (detail id) cs h = rw (send-detail default id cs h) (refl, refl)
send-intended default (update_status id to) cs h =
    rw (send-status default id to cs h)
      (ap the_case (by_id-update id id to cs ∙ rw (==_refl id) refl), look_of-update id to cs)

direct-replay :
    (default : CaseStatus) (rs : List Request) (cs : List Case)
    → All HasSegment rs
    → map (λ x. (x.0, told x.1)) (answers (λ p. p) default rs cs) ≡ replay rs (look_of cs)
unfolding answers
direct-replay default [] cs h = refl
direct-replay default (r ∷ rs) cs (h, hs) =
    let (e, f) = send-intended default r cs h in
    let rest = direct-replay default rs (direct default r cs).1 hs in
    cc (e, rest ∙ ap (replay rs) f)

-- Whatever requests the app sends, for ids that are one segment of a path and with paths that are their
-- own pathnames, and in whatever order: the mock tells each what a map from ids to cases tells it,
-- where a change of status is one of the case of its id, and nothing else changes anything.
pub answers-replay :
    (pathname : Text → Text) (default : CaseStatus) (rs : List Request) (cs : List Case)
    → All (IsFormed pathname) rs
    → map (λ x. (x.0, told x.1)) (answers pathname default rs cs) ≡ replay rs (look_of cs)
answers-replay pathname default rs cs h =
    ap (map (λ x. (x.0, told x.1))) (answers-direct pathname default rs cs h)
    ∙ direct-replay default rs cs (All-imp (IsFormed pathname) HasSegment (λ r k. k.0) rs h)
