-- ===== src/Db/Clock.antt =====
-- The clock of `admin/src/lib/db.ts` that the countdowns share: one interval, and the set of its
-- listeners, as `useNow` gives them to React.
use wachen.Base.{ℕ, not, List, [], ◌∷◌, ◌++◌, if◌then◌else◌, includes, filter, nat_eq, ◌==◌}

-- `calls` has the listeners in the order in which they were called.
pub record Clock : Type 0 where
  pub now : ℕ
  pub tickers : List ℕ
  pub calls : List ℕ

-- A round of the interval, at the time `time`.
unfoldable pub tick : ℕ → Clock → Clock
tick time s = record s { now = time; calls = s.calls ++ s.tickers }

-- `useNow`
unfoldable pub watch : ℕ → Clock → Clock
watch l s = record s { tickers = if includes l s.tickers then s.tickers else s.tickers ++ l ∷ [] }

unfoldable pub unwatch : ℕ → Clock → Clock
unwatch l s = record s { tickers = filter (λ k. not (k == l)) s.tickers }
