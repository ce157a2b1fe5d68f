-- ===== src/Roles/Tenant.antt =====
-- The tenants stay apart: what an account can switch to, and what it can see.
use wachen.Base.{
  ◌≡◌, refl, sym, ◌∙◌, ◌≢◌, ◌↔◌, ◌⊎◌, inl, inr, true, false, ap, List, [], ◌∷◌, Option, none, some,
  Text, utf16, text_Eq, text_eq_iff, arith, any, Bool-cases,
}
use wachen.Base.Predicates.{In, In-filter_iff}
use wachen.Case.{WaCase}
use wachen.Roles.Table.{RoleId, hq, tk, Role, roles}
use wachen.Roles.Session.{
  role_ids, role_id_eq, brand_eq, login_role_id, allowed_role_ids, cur_role, RoleState, set_role,
  sync_role, sync_effect,
}
use wachen.Roles.Scope.{scoped_cases, truthy}
use wachen.Roles.Visible.{OfBrand, scoped_cases_iff}

brand_eq_iff : (a b : Option Text) → (brand_eq a b ≡ true) ↔ (a ≡ b)
brand_eq_iff none none = ground arith
brand_eq_iff none (some b) = ground arith
brand_eq_iff (some a) none = ground arith
brand_eq_iff (some a) (some b) = ground (arith, text_eq_iff a b)

role_id_eq_iff : (a b : RoleId) → (role_id_eq a b ≡ true) ↔ (a ≡ b)
role_id_eq_iff a b = ground arith

In-role_ids : (id : RoleId) → In id role_ids
In-role_ids id = ground arith

-- The roles that an account can switch to are exactly those of the brand of its own role.
pub allowed_role_ids_iff :
    (first account : Text) (id : RoleId)
    → In id (allowed_role_ids first account)
      ↔ ((roles first id).brand ≡ (roles first (login_role_id account)).brand)
unfolding allowed_role_ids
allowed_role_ids_iff first account id =
    let own = (roles first (login_role_id account)).brand in
    let e = In-filter_iff _ _ (λ a. brand_eq_iff (roles first a).brand own) id role_ids in
    (λ m. (e.0 m).1, λ b. e.1 (In-role_ids id, b))

any-In : (id : RoleId) (xs : List RoleId) → any (λ a. role_id_eq a id) xs ≡ true → In id xs
any-In id [] h = cc
any-In id (x ∷ xs) h = ground (arith, role_id_eq_iff x id, any-In id xs)

-- Whatever role was stored, the role that the shell works with is one that the account can switch to.
pub cur_role-allowed :
    (first account : Text) (id : RoleId)
    → In (cur_role first account id) (allowed_role_ids first account)
unfolding cur_role
cur_role-allowed first account id =
    elim (Bool-cases (any (λ a. role_id_eq a id) (allowed_role_ids first account))) [
      | inl e ↦ rw e (any-In id (allowed_role_ids first account) e)
      | inr e ↦ rw e ((allowed_role_ids_iff first account (login_role_id account)).1 refl)
    ]

In-any : (id : RoleId) (xs : List RoleId) → In id xs → any (λ a. role_id_eq a id) xs ≡ true
In-any id [] m = absurd m
In-any id (x ∷ xs) (inl e) = rw ((role_id_eq_iff x id).1 e) refl
In-any id (x ∷ xs) (inr m) = ground (arith, In-any id xs m)

pub cur_role-In :
    (first account : Text) (id : RoleId)
    → In id (allowed_role_ids first account)
    → cur_role first account id ≡ id
unfolding cur_role
cur_role-In first account id m = rw (In-any id (allowed_role_ids first account) m) refl

pub cur_role_idem :
    (first account : Text) (id : RoleId)
    → cur_role first account (cur_role first account id) ≡ cur_role first account id
cur_role_idem first account id =
    cur_role-In first account (cur_role first account id) (cur_role-allowed first account id)

sync_effect_kept :
    (first account : Text) (s : RoleState)
    → role_id_eq s.role_id (cur_role first account s.role_id) ≡ true
    → sync_effect first account s ≡ (s, false)
unfolding sync_effect
sync_effect_kept first account s e = rw e refl

sync_effect_set :
    (first account : Text) (s : RoleState)
    → role_id_eq s.role_id (cur_role first account s.role_id) ≡ false
    → sync_effect first account s ≡ set_role (cur_role first account s.role_id) s
unfolding sync_effect
sync_effect_set first account s e = rw e refl

-- A role that the account can switch to is left alone.
pub sync_role_fixed :
    (first account : Text) (s : RoleState)
    → cur_role first account s.role_id ≡ s.role_id
    → sync_role first account s ≡ s
unfolding sync_role
sync_role_fixed first account s h =
    ap (λ p. p.0)
      (sync_effect_kept first account s (rw h ((role_id_eq_iff s.role_id s.role_id).1 refl)))

brand-cases :
    (first : Text) (id : RoleId)
    → ((roles first id).brand ≡ none) ⊎ ((roles first id).brand ≡ some (utf16 "燦X"))
unfolding roles
brand-cases first tk = inr refl
brand-cases first hq = inl refl
brand-cases first _ = inl refl

OfBrand-apart : (b : Text) → OfBrand none b → OfBrand (some (utf16 "燦X")) b → ⊥
OfBrand-apart b h e = ground (arith, text_eq_iff (utf16 "燦X") b)

brands_apart :
    (first : Text) (id jd : RoleId) (b : Text)
    → (roles first id).brand ≢ (roles first jd).brand
    → OfBrand (truthy (roles first id).brand) b
    → OfBrand (truthy (roles first jd).brand) b
    → ⊥
brands_apart first id jd b apart h k = elim (brand-cases first id) [
  | inl e ↦ elim (brand-cases first jd) [
    | inl e' ↦ apart (e ∙ sym e')
    | inr e' ↦ OfBrand-apart b (rw e at h) (rw e' at k)
  ]
  | inr e ↦ elim (brand-cases first jd) [
    | inl e' ↦ OfBrand-apart b (rw e' at k) (rw e at h)
    | inr e' ↦ apart (e ∙ sym e')
  ]
]

set_role-role_id : (id : RoleId) (s : RoleState) → (set_role id s).0.role_id ≡ id
unfolding set_role
set_role-role_id id s = elim (Bool-cases s.app.storage_full) [
  | inl f ↦ rw f refl
  | inr f ↦ rw f refl
]

-- Once the effect of the shell has run, the current role is the one that the shell works with, also
-- where the storage was full.
pub sync_role-role_id :
    (first account : Text) (s : RoleState)
    → (sync_role first account s).role_id ≡ cur_role first account s.role_id
unfolding sync_role
sync_role-role_id first account s =
    let cur = cur_role first account s.role_id in
    elim (Bool-cases (role_id_eq s.role_id cur)) [
      | inl e ↦
          ap (λ p. p.0.role_id) (sync_effect_kept first account s e)
          ∙ (role_id_eq_iff s.role_id cur).0 e
      | inr e ↦ ap (λ p. p.0.role_id) (sync_effect_set first account s e) ∙ set_role-role_id cur s
    ]

-- The role whose data the pages show after that effect.
abbrev pub shown_role : Text → Text → RoleState → Role
shown_role first account s = roles first (sync_role first account s).role_id

shown_role-brand :
    (first account : Text) (s : RoleState)
    → (shown_role first account s).brand ≡ (roles first (login_role_id account)).brand
shown_role-brand first account s = rw (sync_role-role_id first account s) (
    (allowed_role_ids_iff first account (cur_role first account s.role_id)).0
      (cur_role-allowed first account s.role_id))

-- After the effect of the shell has run, two accounts of different tenants never see the same case,
-- whatever role was stored before for the one and for the other, and whatever cases there are.
pub tenants_apart :
    (first account other : Text) (s t : RoleState) (c : WaCase) (xs ys : List WaCase)
    → (roles first (login_role_id account)).brand ≢ (roles first (login_role_id other)).brand
    → In c (scoped_cases (shown_role first account s) xs)
    → ¬ In c (scoped_cases (shown_role first other t) ys)
tenants_apart first account other s t c xs ys apart m n =
    let mine = (scoped_cases_iff (shown_role first account s) c xs).0 m in
    let theirs = (scoped_cases_iff (shown_role first other t) c ys).0 n in
    brands_apart first (sync_role first account s).role_id (sync_role first other t).role_id
      c.brand_short
      (λ e. apart (sym (shown_role-brand first account s) ∙ e ∙ shown_role-brand first other t))
      mine.1.brand theirs.1.brand
