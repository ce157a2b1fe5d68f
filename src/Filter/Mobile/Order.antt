-- ===== src/Filter/Mobile/Order.antt =====
-- The order of the list of the mobile client, and its filters against those of the admin client.
use wachen.Base.{
  ◌≡◌, ℕ, Bool, true, false, List, filter, Text, arith, num_eq, ◌&&◌, text_eq, text_eq_iff,
}
use wachen.Base.Sort.{IsSorted, IsConsistent, sort-IsSorted, sort_stable, sort-perm}
use mathlib.Core.List.{Perm}
use wachen.Domain.{risk_rank}
use wachen.Mobile.Domain.{Case}
use wachen.Filter.Mobile.{ReviewFilters, before, passes, apply_filters}

before-IsConsistent : (p : Text → Text → Bool) → IsConsistent p → IsConsistent (before p)
before-IsConsistent p c = record {
  asym = λ a b h. ground (arith, c.asym b.posted_at a.posted_at);
  cotrans = λ a b d h k. ground (arith, c.cotrans d.posted_at b.posted_at a.posted_at);
}

-- The same risk, posted at the same time.
abbrev pub tied : Case → Case → Bool
tied c x =
    num_eq (risk_rank x.risk_level) (risk_rank c.risk_level) && text_eq x.posted_at c.posted_at

precedes_self : (p : Text → Text → Bool) → IsConsistent p → (t : Text) → p t t ≡ false
precedes_self p c t = ground (arith, c.asym t t)

before-tied :
    (p : Text → Text → Bool)
    → IsConsistent p
    → (c x y : Case) → tied c x ≡ true
    → tied c y ≡ true
    → before p x y ≡ false
before-tied p k c x y h j =
    let posted : x.posted_at ≡ c.posted_at =
      (text_eq_iff x.posted_at c.posted_at).0 (ground arith) in
    let posted' : y.posted_at ≡ c.posted_at =
      (text_eq_iff y.posted_at c.posted_at).0 (ground arith) in
    rw (posted, posted', precedes_self p k c.posted_at) (ground arith)

-- `listed` has the cases of `through` in the order of the list.
pub record Listed (precedes : Text → Text → Bool) (through listed : List Case) : Type 0 where
  pub same : Perm listed through
  pub sorted : IsSorted (before precedes) listed
  pub stable : (c : Case) → filter (tied c) listed ≡ filter (tied c) through

module _ (lower : Text → Text) (now : ℕ) where
  -- Where `localeCompare` is an order, the list has exactly the cases that the filters let through, each
  -- as often as before, with no case after one that is to stand behind it: the higher risk first, and
  -- at one risk the one posted later; cases of one risk posted at one time keep their order.
  pub apply_filters-Listed :
      (precedes : Text → Text → Bool) (f : ReviewFilters) (cs : List Case)
      → IsConsistent precedes
      → Listed precedes (filter (passes lower now f) cs) (apply_filters lower now precedes f cs)
  unfolding apply_filters
  apply_filters-Listed precedes f cs c = record {
    same = sort-perm (before precedes) (filter (passes lower now f) cs);
    sorted =
        sort-IsSorted (before precedes) (before-IsConsistent precedes c)
          (filter (passes lower now f) cs);
    stable = λ x.
        sort_stable (before precedes) (tied x) (before-tied precedes c x)
          (filter (passes lower now f) cs);
  }
