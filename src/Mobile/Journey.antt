-- ===== src/Mobile/Journey.antt =====
-- A press of a button on the screen of a case (`mobile/app/case/[id].tsx`), through the hooks of
-- `mobile/src/api/queries.ts` and the mock of `mobile/src/api/mock.ts`, and back to the screen.
use wachen.Base.{
  ◌≡◌, refl, ap, ◌∙◌, Bool, true, false, List, [], ◌∷◌, map, some, Text, text_Eq, ==_refl, get, put,
  get-put,
}
use wachen.Base.Predicates.{All}
use wachen.Domain.{CaseStatus}
use wachen.CaseMachine.{Transition, case_transitions}
use wachen.Mobile.Domain.{Case}
use wachen.Mobile.Roles.{Role}
use wachen.Mobile.CaseItem.{status_pill}
use wachen.Mobile.CaseScreen.{CaseScreen, Button, button, screen_of, press}
use wachen.Mobile.Mock.{detail_path, status_path, one_case, by_id, update_by_id, patched}
use wachen.Mobile.Mock.Routes.{IsSegment, by_id-update}
use wachen.Mobile.Optimistic.{Cache, on_mutate, with_status, set_detail}
use wachen.Mobile.Queries.{send, path, detail, update_status}
use wachen.Mobile.Queries.Typed.{send-direct, send-detail, send-status}

module _ (upper : Text → Text) (role : Role) (c : Case) where
  -- The screen of the case with another status and reopened count, and nothing else changed.
  abbrev pub renewed : Bool → CaseStatus → Case → CaseScreen
  renewed pending to d = record (screen_of upper role pending c) {
    status = status_pill to;
    buttons = map (button pending) (case_transitions to);
    reopened = (screen_of upper role pending d).reopened;
  }

  -- What a press of the button leads to, where the mock has the cases `cs` and the cache is `q`: what
  -- the screen shows while the change is under way, and once the case has been fetched anew.
  abbrev pub Works : (Text → Text) → CaseStatus → List Case → Cache → Button → Type 0
  Works pathname default cs q b =
      let p = send pathname default (update_status c.id b.to) cs in
      let d = patched b.to c in
      (press b c ≡ some (c.id, b.to))
      × (get c.id (on_mutate c.id b.to q).0.details ≡ some (with_status b.to c))
      × (screen_of upper role true (with_status b.to c) ≡ renewed true b.to c)
      × (p.0 ≡ some (one_case (some d)))
      × ((send pathname default (detail c.id) p.1).0 ≡ some (one_case (some d)))
      × (screen_of upper role false d ≡ renewed false b.to d)

  module _ (pathname : Text → Text) (default : CaseStatus) (cs : List Case) (q : Cache)
      (segment : IsSegment c.id) (kept_detail : pathname (detail_path c.id) ≡ detail_path c.id)
      (kept_status : pathname (status_path c.id) ≡ status_path c.id)
      (there : by_id c.id cs ≡ some c) (cached : get c.id q.details ≡ some c) where
    cached-on_mutate :
        (to : CaseStatus) → get c.id (on_mutate c.id to q).0.details ≡ some (with_status to c)
    unfolding on_mutate
    cached-on_mutate to =
        let stored : set_detail c.id to q.details ≡ put c.id (with_status to c) q.details =
          rw (cached, set_detail) refl in
        ap (λ ds. get c.id ds) stored
        ∙ get-put c.id c.id (with_status to c) q.details
        ∙ rw (==_refl c.id) refl

    kept : (to : CaseStatus) → by_id c.id (update_by_id c.id (patched to) cs) ≡ some (patched to c)
    kept to = by_id-update c.id c.id to cs ∙ rw (==_refl c.id, there) refl

    button-Works : (tr : Transition) → Works pathname default cs q (button false tr)
    unfolding press button screen_of patched path
    button-Works tr =
        let r = update_status c.id tr.to in
        let changed =
          send-direct pathname default r cs kept_status
          ∙ send-status default c.id tr.to cs segment in
        let after = update_by_id c.id (patched tr.to) cs in
        let found = ap (λ o. some (one_case o)) (kept tr.to) in
        (
          refl,
          cached-on_mutate tr.to,
          refl,
          ap (λ p. p.0) changed ∙ found,
          ap (λ p. (send pathname default (detail c.id) p.1).0) changed
              ∙ ap (λ p. p.0) (send-direct pathname default (detail c.id) after kept_detail)
              ∙ ap (λ p. p.0) (send-detail default c.id after segment)
              ∙ found,
          refl,
        )

    buttons-Works_of :
        (ts : List Transition) → All (Works pathname default cs q) (map (button false) ts)
    buttons-Works_of [] = tt
    buttons-Works_of (tr ∷ ts) = (button-Works tr, buttons-Works_of ts)

    -- For a case of the mock that is in the cache, with an id that is one segment of a path and
    -- whose paths are their own pathnames, every button of its screen works: a press asks for the
    -- status of the button; while the change is under way the screen shows that status and the
    -- buttons that follow, disabled; the mock answers with the changed case, and once it has been
    -- fetched anew the screen shows the same, with buttons that can be pressed and the reopened
    -- count of the mock. Nothing else on the screen changes.
    pub buttons-Works : All (Works pathname default cs q) (screen_of upper role false c).buttons
    unfolding screen_of
    buttons-Works = buttons-Works_of (case_transitions c.cstatus)
