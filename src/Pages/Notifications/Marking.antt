-- ===== src/Pages/Notifications/Marking.antt =====
-- What the button of the page leaves unread.
use wachen.Base.{
  ◌≡◌, refl, ap, Bool, true, not, List, [], ◌∷◌, map, Option, Text, text_Eq, cnt, filter, includes,
  Bool-cases, inl, inr, if◌then◌else◌, arith,
}
use wachen.Base.Predicates.{In, In-filter, includes_iff}
use wachen.Case.{Notice}
use wachen.Db.{App, mark_all_read, notice_read, bump}
use wachen.Roles.Table.{Role}
use wachen.Roles.Scope.{truthy, scoped_cases, scoped_notifications, notice_visible, is_full}
use wachen.Pages.Notifications.{listed, mark_listed}

-- The visible notifications of a list, marked by a list of ids that has all of theirs.
module _ (visible : Option Text → Bool) (ids : List Text) where
  abbrev marked : Notice → Notice
  marked n = if includes n.id ids then notice_read n else n

  abbrev seen : Notice → Bool
  seen n = visible (truthy n.case_id)

  unread_none :
      (ns : List Notice)
      → ((n : Notice) → In n ns → seen n ≡ true → includes n.id ids ≡ true)
      → cnt (λ n. not n.read) (filter seen (map marked ns)) ≡ 0
  unread_none [] h = refl
  unread_none (n ∷ ns) h =
      let rest = unread_none ns (λ m k. h m (inr k)) in
      elim (Bool-cases (includes n.id ids)) [
        | inl i ↦ elim (Bool-cases (seen n)) [ inl v ↦ rw (i, v) rest | inr v ↦ rw (i, v) rest ]
        | inr i ↦ elim (Bool-cases (seen n)) [
          | inl v ↦ absurd (ground (arith, i, h n (inl refl) v))
          | inr v ↦ rw (i, v) rest
        ]
      ]

In-map : {A B : Type 0} (f : A → B) (a : A) (xs : List A) → In a xs → In (f a) (map f xs)
In-map f a [] m = absurd m
In-map f a (x ∷ xs) (inl e) = inl (ap f e)
In-map f a (x ∷ xs) (inr m) = inr (In-map f a xs m)

-- After the button that marks all notifications on the page as read, none of those that the role sees
-- is unread, whatever the notifications and the role.
pub mark_listed-unread :
    (role : Role) (s : App) → cnt (λ n. not n.read) (listed role (mark_listed role s)) ≡ 0
unfolding listed mark_listed mark_all_read scoped_notifications bump
mark_listed-unread role s =
    let shown = notice_visible (is_full role) (map (λ c. c.id) (scoped_cases role s.cases)) in
    let test = λ (n : Notice). shown (truthy n.case_id) in
    unread_none shown (map (λ n. n.id) (filter test s.notices)) s.notices (λ n m v.
      (includes_iff n.id (map (λ n. n.id) (filter test s.notices))).1
        (In-map (λ n. n.id) n (filter test s.notices) (In-filter test s.notices m v)))
