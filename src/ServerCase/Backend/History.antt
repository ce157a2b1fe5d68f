-- ===== src/ServerCase/Backend/History.antt =====
-- What stays true of the rows, whoever asks the backend for what.
use wachen.Base.{
  subst, ◌≡◌, refl, sym, ℕ, Bool, true, false, List, [], ◌∷◌, Option, none, some, Text, ◌⊎◌, inl,
  inr, find, is_some, Bool-cases, Option-cases, ap, text_Eq,
}
use wachen.Base.Predicates.{All, Pairs}
use wachen.Api.{Headers}
use wachen.ServerCase.{ServerStatus, open_, in_progress, resolved, closed, valid_transitions}
use wachen.ServerCase.Backend.{
  Row, is_live, moved, responded, update_row, change, store_update, service_update, of_name,
  answered, serve, bearer, is_missing, name_in, Failure, unknown_status, invalid_transition, other,
}

-- A path along the table of the backend.
pub data Way : ServerStatus → ServerStatus → Type 0 where
  stays : {s : ServerStatus} → Way s s
  goes : {s t u : ServerStatus} → Way s t → valid_transitions t u ≡ true → Way s u

-- A row after some requests: the same case, moved along the table, and the time of its first answer, once
-- there is one, is the same.
pub record Kept (r s : Row) : Type 0 where
  pub id : s.id ≡ r.id
  pub deleted : s.deleted ≡ r.deleted
  pub way : Way r.status s.status
  pub first_answer : {t : ℕ} → r.responded_at ≡ some t → s.responded_at ≡ some t

-- A case that is resolved or closed has the time of its first answer.
abbrev pub Answers : ServerStatus → Option ℕ → Type 0
Answers resolved at = is_some at ≡ true
Answers closed at = is_some at ≡ true
Answers _ at = Unit

-- `r` before the requests, and `s` after them.
abbrev pub Good : Row → Row → Type 0
Good r s = Kept r s × Answers s.status s.responded_at

-- An answer, by anybody to anybody, whether or not it is a change of status.
pub data Step : List Row → List Row → Type 0 where
  asked :
      (verify : Text → Bool) (fails : Bool) (now : ℕ) (id : Text) (hs : Headers)
      (fields : List (Text × Text)) (rows : List Row)
      → Step rows (serve verify fails now id hs fields rows).1

pub data Reach (rows : List Row) : List Row → Type 0 where
  here : Reach rows rows
  next : {xs ys : List Row} → Reach rows xs → Step xs ys → Reach rows ys

responded-Answers :
    (now : ℕ) (s to : ServerStatus) (at : Option ℕ)
    → valid_transitions s to ≡ true
    → Answers s at
    → Answers to (responded now to at)
unfolding valid_transitions
responded-Answers now s open_ at v h = tt
responded-Answers now s in_progress at v h = tt
responded-Answers now s resolved at v h = refl
responded-Answers now resolved closed at v h = h
responded-Answers now open_ closed at v h = cc
responded-Answers now in_progress closed at v h = cc
responded-Answers now closed closed at v h = cc

responded-keeps :
    (now t : ℕ) (to : ServerStatus) (at : Option ℕ) → at ≡ some t → responded now to at ≡ some t
responded-keeps now t resolved at e = rw e refl
responded-keeps now t open_ at e = e
responded-keeps now t in_progress at e = e
responded-keeps now t closed at e = e

moved-Good :
    (now : ℕ) (to : ServerStatus) (r s : Row)
    → valid_transitions s.status to ≡ true
    → Good r s
    → Good r (moved now to s)
unfolding moved
moved-Good now to r s v (k, a) = (
  record {
    id = k.id;
    deleted = k.deleted;
    way = goes k.way v;
    first_answer = λ {t} e. responded-keeps now t to s.responded_at (k.first_answer e);
  },
  responded-Answers now s.status to s.responded_at v a,
)

pub some-inj : {r s : Row} → some r ≡ some s → r ≡ s
some-inj {r} p = ap (λ (o : Option Row). elim o [ none ↦ r | some x ↦ x ]) p

update_row-Pairs :
    (R : Row → Row → Type 0) (id : Text) (f : Row → Row) (s : Row) (rs ss : List Row)
    → find (is_live id) ss ≡ some s
    → ((r : Row) → R r s → R r (f s))
    → Pairs R rs ss
    → Pairs R rs (update_row id f ss)
unfolding update_row
update_row-Pairs R id f s [] [] e step h = tt
update_row-Pairs R id f s [] (x ∷ ss) e step h = absurd h
update_row-Pairs R id f s (r ∷ rs) [] e step h = absurd h
update_row-Pairs R id f s (r ∷ rs) (x ∷ ss) e step (h, hs) = elim (Bool-cases (is_live id x)) [
  | inl t ↦
      let same : x ≡ s = some-inj (rw t at e) in
      rw t (subst (λ y. R r (f y)) (sym same) (step r (rw same at h)), hs)
  | inr t ↦ rw t (h, update_row-Pairs R id f s rs ss (rw t at e) step hs)
]

-- The rows after an answer.
abbrev rows_after : List Row → Failure ⊎ List Row → List Row
rows_after rows (inl e) = rows
rows_after rows (inr after) = after

change-Good :
    (now : ℕ) (id : Text) (to : ServerStatus) (rs ss : List Row)
    → Pairs Good rs ss
    → Pairs Good rs (rows_after ss (change now id to ss (find (is_live id) ss)))
unfolding change
change-Good now id to rs ss h = elim (Option-cases (find (is_live id) ss)) [
  | inl e ↦ rw e h
  | inr (s, e) ↦ elim (Bool-cases (valid_transitions s.status to)) [
    | inl v ↦
        rw (e, v)
          (update_row-Pairs Good id (moved now to) s rs ss e (λ r. moved-Good now to r s v) h)
    | inr v ↦ rw (e, v) h
  ]
]

service-Good :
    (fails : Bool) (now : ℕ) (id : Text) (to : Option ServerStatus) (rs ss : List Row)
    → Pairs Good rs ss
    → Pairs Good rs (rows_after ss (service_update fails now id to ss))
unfolding service_update store_update
service-Good fails now id none rs ss h = h
service-Good true now id (some to) rs ss h = h
service-Good false now id (some to) rs ss h = change-Good now id to rs ss h

answered-rows :
    (name : Text) (rows : List Row) (o : Failure ⊎ List Row)
    → (answered name rows o).1 ≡ rows_after rows o
answered-rows name rows (inl unknown_status) = refl
answered-rows name rows (inl invalid_transition) = refl
answered-rows name rows (inl other) = refl
answered-rows name rows (inr after) = refl

serve-Good :
    (verify : Text → Bool) (fails : Bool) (now : ℕ) (id : Text) (hs : Headers)
    (fields : List (Text × Text)) (rs ss : List Row)
    → Pairs Good rs ss
    → Pairs Good rs (serve verify fails now id hs fields ss).1
unfolding serve
serve-Good verify fails now id hs fields rs ss h = elim (Bool-cases (is_missing hs)) [
  | inl e ↦ rw e h
  | inr e ↦ elim (Bool-cases (verify (bearer hs))) [
    | inl v ↦
        let o = service_update fails now id (of_name (name_in fields)) ss in
        rw (e, v)
          (subst (Pairs Good rs) (sym (answered-rows (name_in fields) ss o))
            (service-Good fails now id (of_name (name_in fields)) rs ss h))
    | inr v ↦ rw (e, v) h
  ]
]

Pairs-refl :
    (rows : List Row) → All (λ r. Answers r.status r.responded_at) rows → Pairs Good rows rows
Pairs-refl [] h = tt
Pairs-refl (r ∷ rows) (h, hs) = (
  (record { id = refl; deleted = refl; way = stays; first_answer = λ {t} e. e }, h),
  Pairs-refl rows hs,
)

-- Whoever asks for whatever, in whatever order, and whether the database is up or not: each row is the
-- same case, has moved along the table of the backend only, has the time of its first answer if it is
-- resolved or closed, and keeps that time for good.
pub Reach-Good :
    (rows : List Row) {after : List Row}
    → All (λ r. Answers r.status r.responded_at) rows
    → Reach rows after
    → Pairs Good rows after
Reach-Good rows h here = Pairs-refl rows h
Reach-Good rows h (next r (asked verify fails now id hs fields xs)) =
    serve-Good verify fails now id hs fields rows xs (Reach-Good rows h r)
