-- ===== src/Pages/Approvals/Queue.antt =====
-- Which requests the page of approvals sends.
use wachen.Base.{◌≡◌, refl, ap, ◌∙◌, List, [], ◌∷◌, ◌++◌, map, Option, none, some, Text, utf16}
use wachen.Api.{Call, Message, method, path}
use wachen.Api.Types.{CaseFilters}
use wachen.Pages.Approvals.{
  Approvals, Decision, approve, reject, load, opened, decide, loaded, decided, call_of, fulfilled,
  rejected, Step, polls, loads, clicks, decides, Reach, here, next,
}

-- What goes over the wire: the method, where it is not GET, and the path.
abbrev pub Wire : Type 0
Wire = Option Text × Text

abbrev pub wire : (CaseFilters → Text) → Call → Wire
wire encode c = (method c, path encode c)

abbrev pub asks_list : Wire
asks_list = (none, utf16 "/approvals")

abbrev pub asks_decision : Decision → Text → Wire
asks_decision approve id = (some (utf16 "POST"), utf16 "/replies/" ++ (id ++ utf16 "/approve"))
asks_decision reject id = (some (utf16 "POST"), utf16 "/replies/" ++ (id ++ utf16 "/reject"))

module _ (show text_of : Message → Text) where
  -- What a step is to send: every poll and every decision that the backend took asks for the list, and a
  -- click tells the backend the decision.
  abbrev pub due : {s t : Approvals} → Step show text_of s t → List Wire
  due (polls s) = asks_list ∷ []
  due (loads r s h) = []
  due (clicks d p ps s h m) = asks_decision d p.id ∷ []
  due (decides d id (fulfilled u) s h) = asks_list ∷ []
  due (decides d id (rejected e) s h) = []

  -- And what all the steps together are, the last one first, after the list that the page asks for when
  -- it opens.
  abbrev pub all_due : {t : Approvals} → Reach show text_of opened t → List Wire
  all_due here = asks_list ∷ []
  all_due (next r k) = due k ++ all_due r

  module _ (encode : CaseFilters → Text) where
    wire-call_of : (d : Decision) (id : Text) → wire encode (call_of d id) ≡ asks_decision d id
    unfolding call_of method path
    wire-call_of approve id = refl
    wire-call_of reject id = refl

    Step-due :
        {s t : Approvals} (k : Step show text_of s t)
        → map (wire encode) t.sent ≡ due k ++ map (wire encode) s.sent
    unfolding load loaded decide decided method path
    Step-due (polls s) = refl
    Step-due (loads (fulfilled r) s h) = refl
    Step-due (loads (rejected e) s h) = refl
    Step-due (clicks d p ps s h m) = ap (λ w. w ∷ map (wire encode) s.sent) (wire-call_of d p.id)
    Step-due (decides d id (fulfilled u) s h) = refl
    Step-due (decides d id (rejected e) s h) = refl

    -- However the user clicks and the backend answers, and in whatever order: the page has sent exactly
    -- the requests that are due, in their order. It asks for the list when it opens, at every poll
    -- and after every decision that the backend took, and not after one that it refused; and every
    -- click tells the backend the decision of its button, for the reply at which it stands.
    pub queue-sent :
        {t : Approvals} (r : Reach show text_of opened t) → map (wire encode) t.sent ≡ all_due r
    unfolding opened load method path
    queue-sent here = refl
    queue-sent (next r k) = Step-due k ∙ ap (λ ws. due k ++ ws) (queue-sent r)
