-- ===== src/Mobile/Client/Ends.antt =====
-- What a call of `api` does to the session, and when it ends in a value.
use wachen.Base.{
  ◌≡◌, refl, ap, ◌↔◌, inl, inr, ◌≢◌, ℕ, ◌≤◌, true, false, ◌++◌, Option, none, some, Text, utf16,
  text_Eq, nat_eq, ◌==◌, arith, Bool-cases, if◌then◌else◌,
}
use wachen.Mobile.Session.{SessionState, sign_out}
use wachen.Mobile.Client.{
  Response, Outcome, value, api_error, host_error, Headers, headers, is_ok, parsed, answered, ended,
  api,
}

-- Where the session stands after an answer.
abbrev pub after_status : Option ℕ → SessionState → SessionState
after_status none s = s
after_status (some n) s = if n == 401 then sign_out s else s

abbrev pub status_of : {A : Type 0} → Option (Response A) → Option ℕ
status_of none = none
status_of (some r) = some r.status

ended-session :
    {A : Type 0} (o : Option (Response A)) (s : SessionState)
    → (ended o s).1 ≡ after_status (status_of o) s
ended-session none s = refl
ended-session (some r) s = elim (Bool-cases (r.status == 401)) [
  | inl t ↦ rw t refl
  | inr f ↦ rw f (elim (Bool-cases (is_ok r.status)) [ inl o ↦ rw o refl | inr o ↦ rw o refl ])
]

-- A response that is good and carries a value.
pub record Good {A : Type 0} (a : A) (r : Response A) : Type 0 where
  pub from_200 : 200 ≤ r.status
  pub to_299 : r.status ≤ 299
  pub body : r.json ≡ some a

module _ {A : Type 0} where
  not_value : {a : A} (n : ℕ) (t : Text) → api_error n t ≢ value a
  not_value n t p = cc

  host_not_value : {a : A} → host_error ≢ value a
  host_not_value p = cc

  value_of_parsed : (o : Option A) (a : A) → parsed o ≡ value a → o ≡ some a
  value_of_parsed none a p = absurd (host_not_value p)
  value_of_parsed (some b) a p = ap (λ (x : Outcome A). elim x [ value y ↦ some y | _ ↦ none ]) p

  answered-Good :
      (r : Response A) (s : SessionState) (a : A) → (answered r s).0 ≡ value a → Good a r
  answered-Good r s a h = elim (Bool-cases (r.status == 401)) [
    | inl t ↦ absurd (not_value 401 (utf16 "unauthorized") (rw t at h))
    | inr f ↦ elim (Bool-cases (is_ok r.status)) [
      | inl o ↦ record {
        from_200 = ground arith;
        to_299 = ground arith;
        body = value_of_parsed r.json a (rw (f, o) at h);
      }
      | inr o ↦ absurd (not_value r.status r.text (rw (f, o) at h))
    ]
  ]

  Good-answered :
      (r : Response A) (s : SessionState) (a : A) → Good a r → (answered r s).0 ≡ value a
  Good-answered r s a k =
      let not_401 : (r.status == 401) ≡ false = ground (arith, k.to_299) in
      let ok : is_ok r.status ≡ true = ground (arith, k.from_200, k.to_299) in
      rw (not_401, ok, k.body) refl

  ended-Good :
      (o : Option (Response A)) (s : SessionState) (a : A)
      → ((ended o s).0 ≡ value a) ↔ ((r : Response A) × (o ≡ some r) × Good a r)
  ended-Good none s a =
      (λ h. absurd (host_not_value h), λ k. absurd (let (r, p, g) = k in none_some p))
    where
      none_some : {r : Response A} → none ≢ some r
      none_some p = cc
  ended-Good (some r) s a = (
    λ h. (r, refl, answered-Good r s a h),
    λ k. let (q, p, g) = k in let same : q ≡ r = cc in Good-answered r s a (rw same at g),
  )

module _ {A : Type 0} (fetch : Text → Headers → Option (Response A)) (base : Text) where
  -- A call changes the session exactly by signing out on the status 401: the role stays, and after
  -- any other answer or none at all the session is as it was.
  api-session :
      (path : Text) (init : Headers) (s : SessionState)
      → (api fetch base path init s).1
        ≡ after_status (status_of (fetch (base ++ path) (headers s.token init))) s
  unfolding api
  api-session path init s = ended-session (fetch (base ++ path) (headers s.token init)) s

  -- A call ends in a value exactly if the host got a response with a status from 200 to 299 whose
  -- body is that value in JSON.
  pub api_value_iff :
      (a : A) (path : Text) (init : Headers) (s : SessionState)
      → ((api fetch base path init s).0 ≡ value a)
        ↔ ((r : Response A) × (fetch (base ++ path) (headers s.token init) ≡ some r) × Good a r)
  unfolding api
  api_value_iff a path init s = ended-Good (fetch (base ++ path) (headers s.token init)) s a
