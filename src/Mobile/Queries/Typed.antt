-- ===== src/Mobile/Queries/Typed.antt =====
-- Which requests the mock answers with what their hooks expect.
use wachen.Base.{
  ap, ◌≡◌, refl, sym, ◌∙◌, text_Eq, ◌↔◌, ◌≢◌, List, [], ◌∷◌, Option, none, some, Text, text_eq,
  Bool-cases, inl, inr, Option-cases,
}
use wachen.Base.Predicates.{All, All-imp}
use wachen.Domain.{CaseStatus}
use wachen.Mobile.Domain.{Case}
use wachen.Mobile.Mock.{Answer, one_case, mock_fetch, by_id, update_by_id, patched}
use wachen.Mobile.Mock.Routes.{IsSegment, by_id-update, mock_fetch-detail, mock_fetch-status}
use wachen.Mobile.Queries.{
  Request, login, all_cases, all_facets, detail, update_status, create_reply, path, method,
  body_status, send, answers, HasType, a_token, the_cases, the_facets, a_case, changed_case,
}

-- The id of the request is one segment of its path.
abbrev pub HasSegment : Request → Type 0
HasSegment (detail id) = IsSegment id
HasSegment (update_status id to) = IsSegment id
HasSegment _ = Unit

-- And its path is its own pathname, as it is for the hexadecimal ids of the data.
abbrev pub IsFormed : (Text → Text) → Request → Type 0
IsFormed pathname r = HasSegment r × (pathname (path r) ≡ path r)

-- A request whose path is its own pathname.
abbrev pub direct : CaseStatus → Request → List Case → Option Answer × List Case
direct = send (λ p. p)

pub send-direct :
    (pathname : Text → Text) (default : CaseStatus) (r : Request) (cs : List Case)
    → pathname (path r) ≡ path r
    → send pathname default r cs ≡ direct default r cs
unfolding send
send-direct pathname default r cs e = ap (λ p. mock_fetch (method r) p (body_status default r) cs) e

pub answers-direct :
    (pathname : Text → Text) (default : CaseStatus) (rs : List Request) (cs : List Case)
    → All (IsFormed pathname) rs
    → answers pathname default rs cs ≡ answers (λ p. p) default rs cs
unfolding answers
answers-direct pathname default [] cs h = refl
answers-direct pathname default (r ∷ rs) cs ((h, e), hs) =
    let p = direct default r cs in
    ap (λ q. (r, q.0) ∷ answers pathname default rs q.1) (send-direct pathname default r cs e)
    ∙ ap (λ xs. (r, p.0) ∷ xs) (answers-direct pathname default rs p.1 hs)

-- The request names a case that is there; a reply has no route.
abbrev pub IsServed : List Case → Request → Type 0
IsServed cs (detail id) = (c : Case) × (by_id id cs ≡ some c)
IsServed cs (update_status id to) = (c : Case) × (by_id id cs ≡ some c)
IsServed cs (create_reply id content) = ⊥
IsServed cs _ = Unit

-- What `send` answers has the type of the request.
abbrev pub IsTyped : Request × Option Answer → Type 0
IsTyped (r, none) = ⊥
IsTyped (r, some a) = HasType r a

send-reply :
    (default : CaseStatus) (id content : Text) (cs : List Case)
    → direct default (create_reply id content) cs ≡ (none, cs)
unfolding send mock_fetch
send-reply default id content cs = refl

pub send-detail :
    (default : CaseStatus) (id : Text) (cs : List Case)
    → IsSegment id
    → direct default (detail id) cs ≡ (some (one_case (by_id id cs)), cs)
unfolding send
send-detail default id cs h = mock_fetch-detail id default cs h

pub send-status :
    (default : CaseStatus) (id : Text) (to : CaseStatus) (cs : List Case)
    → IsSegment id
    → let after = update_by_id id (patched to) cs in
      direct default (update_status id to) cs ≡ (some (one_case (by_id id after)), after)
unfolding send
send-status default id to cs h = mock_fetch-status id to cs h

known :
    (id j : Text) (to : CaseStatus) (cs : List Case)
    → (c : Case) × (by_id j cs ≡ some c)
    → (c : Case) × (by_id j (update_by_id id (patched to) cs) ≡ some c)
known id j to cs (c, h) = elim (Bool-cases (text_eq id j)) [
  | inl e ↦ (patched to c, rw (by_id-update id j to cs, e, h) refl)
  | inr e ↦ (c, rw (by_id-update id j to cs, e) h)
]

none-some : {c : Case} → none ≢ some c
none-some p = cc

of_known :
    (id j : Text) (to : CaseStatus) (cs : List Case)
    → (c : Case) × (by_id j (update_by_id id (patched to) cs) ≡ some c)
    → (c : Case) × (by_id j cs ≡ some c)
of_known id j to cs (c, h) = elim (Option-cases (by_id j cs)) [
  | inl e ↦
      let gone : by_id j (update_by_id id (patched to) cs) ≡ none =
        by_id-update id j to cs
        ∙ rw e (elim (Bool-cases (text_eq id j)) [ inl t ↦ rw t refl | inr t ↦ rw t refl ]) in
      absurd (none-some (sym gone ∙ h))
  | inr k ↦ k
]

-- An answer about a case has the type of a case exactly if there is one.
detail-HasType :
    (id : Text) (o : Option Case) → HasType (detail id) (one_case o) → (c : Case) × (o ≡ some c)
detail-HasType id none t = elim t [ ]
detail-HasType id (some c) a_case = (c, refl)

status-HasType :
    (id : Text) (to : CaseStatus) (o : Option Case)
    → HasType (update_status id to) (one_case o)
    → (c : Case) × (o ≡ some c)
status-HasType id to none t = elim t [ ]
status-HasType id to (some c) changed_case = (c, refl)

-- For ids that are one segment of a path: the mock answers a request with a value of the type that the
-- hook promises exactly if the case that the request names is there, or it names none; a reply is
-- not answered at all.
pub send-HasType_iff :
    (default : CaseStatus) (cs : List Case) (r : Request)
    → HasSegment r
    → IsTyped (r, (direct default r cs).0) ↔ IsServed cs r
unfolding send mock_fetch
send-HasType_iff default cs login h = ((λ t. tt), (λ t. a_token))
send-HasType_iff default cs all_cases h = ((λ t. tt), (λ t. the_cases))
send-HasType_iff default cs all_facets h = ((λ t. tt), (λ t. the_facets))
send-HasType_iff default cs (create_reply id content) h = ((λ t. t), (λ t. t))
send-HasType_iff default cs (detail id) h =
    rw (send-detail default id cs h) (detail-HasType id _, λ (c, e). rw e a_case)
send-HasType_iff default cs (update_status id to) h = rw (send-status default id to cs h) (
  (λ t. of_known id id to cs (status-HasType id to _ t)),
  (λ k. let (c, e) = known id id to cs k in rw e changed_case),
)

-- A request leaves what is there, and brings nothing new.
send-IsServed_iff :
    (default : CaseStatus) (cs : List Case) (r q : Request)
    → HasSegment r
    → IsServed (direct default r cs).1 q ↔ IsServed cs q
unfolding send mock_fetch
send-IsServed_iff default cs login q h = ((λ k. k), (λ k. k))
send-IsServed_iff default cs all_cases q h = ((λ k. k), (λ k. k))
send-IsServed_iff default cs all_facets q h = ((λ k. k), (λ k. k))
send-IsServed_iff default cs (create_reply id content) q h = ((λ k. k), (λ k. k))
send-IsServed_iff default cs (detail id) q h = rw (send-detail default id cs h) ((λ k. k), (λ k. k))
send-IsServed_iff default cs (update_status id to) (detail j) h =
    rw (send-status default id to cs h) (of_known id j to cs, known id j to cs)
send-IsServed_iff default cs (update_status id to) (update_status j to') h =
    rw (send-status default id to cs h) (of_known id j to cs, known id j to cs)
send-IsServed_iff default cs (update_status id to) login h = ((λ k. tt), (λ k. tt))
send-IsServed_iff default cs (update_status id to) all_cases h = ((λ k. tt), (λ k. tt))
send-IsServed_iff default cs (update_status id to) all_facets h = ((λ k. tt), (λ k. tt))
send-IsServed_iff default cs (update_status id to) (create_reply j content) h = ((λ k. k), (λ k. k))

abbrev Exact : List Case → Request × Option Answer → Type 0
Exact cs x = IsTyped x ↔ IsServed cs x.0

direct-Exact :
    (default : CaseStatus) (rs : List Request) (cs : List Case)
    → All HasSegment rs
    → All (Exact cs) (answers (λ p. p) default rs cs)
unfolding answers
direct-Exact default [] cs h = tt
direct-Exact default (r ∷ rs) cs (h, hs) =
    let after = (direct default r cs).1 in
    (
      send-HasType_iff default cs r h,
      All-imp (Exact after) (Exact cs)
          (λ x t.
            let s = send-IsServed_iff default cs r x.0 h in
            ((λ y. s.0 (t.0 y)), (λ z. t.1 (s.1 z))))
          (answers (λ p. p) default rs after) (direct-Exact default rs after hs),
    )

-- Requests whose ids are one segment of a path, and whose paths are their own pathnames, in any order and
-- however the statuses change in between: each is answered with a value of the type that its hook
-- promises exactly if the case that it names is one of the data, or it names none. A reply is never
-- answered, whatever case it names: the mock has no route for it.
pub answers-HasType_iff :
    (pathname : Text → Text) (default : CaseStatus) (rs : List Request) (cs : List Case)
    → All (IsFormed pathname) rs
    → All (λ x. IsTyped x ↔ IsServed cs x.0) (answers pathname default rs cs)
answers-HasType_iff pathname default rs cs h =
    rw (answers-direct pathname default rs cs h)
      (direct-Exact default rs cs (All-imp (IsFormed pathname) HasSegment (λ r k. k.0) rs h))
