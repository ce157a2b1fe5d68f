-- ===== src/Pages/Pipeline/Polling.antt =====
-- What the page shows over time, and how wide it draws.
use wachen.Base.{◌≡◌, refl, ℕ, ◌≤◌, ◌<◌, List, [], ◌∷◌, map, false, arith}
use wachen.Base.Predicates.{All}
use wachen.Api.Types.{Funnel}
use wachen.Charts.{largest}
use wachen.Charts.Bars.{largest-pos, le-largest, All-values}
use wachen.Charts.Frame.{Within}
use wachen.Pages.Pipeline.{
  Pipeline, Step, ticks, answers, leaves, Reach, here, next, arrived, ticked, unmounted, Stage,
  stages, funnel_row, funnel,
}

-- What the user sees of one state in the other, and nothing of the effect is left.
pub record Frozen (s t : Pipeline) : Type 0 where
  pub same_p : t.p ≡ s.p
  pub same_tick : t.tick ≡ s.tick
  pub off : t.live ≡ false
  pub cleared : t.timer ≡ false

Step-Frozen : (s : Pipeline) {t u : Pipeline} → Frozen s t → Step t u → Frozen s u
unfolding ticked arrived unmounted
Step-Frozen s f (ticks t h) = absurd (ground (arith, h, f.cleared))
Step-Frozen s f (answers r t) = still
  where
    quiet : arrived r t ≡ t
    quiet = rw f.off refl

    still : Frozen s (arrived r t)
    still = rw quiet f
Step-Frozen s f (leaves t) = record {
  same_p = f.same_p;
  same_tick = f.same_tick;
  off = refl;
  cleared = refl;
}

-- However the page is left, nothing that happens afterwards changes what it held: neither an answer to
-- a request that was under way its statistics, nor the interval the counter of its rounds.
pub pipeline_Reach-Frozen : (s t : Pipeline) → Reach (unmounted s) t → Frozen s t
unfolding unmounted
pipeline_Reach-Frozen s t here = record {
  same_p = refl;
  same_tick = refl;
  off = refl;
  cleared = refl;
}
pipeline_Reach-Frozen s t (next {t = m} r k) = Step-Frozen s (pipeline_Reach-Frozen s m r) k

rows-Within :
    (top : ℕ) (ss : List Stage)
    → 0 < top
    → All (λ s. s.value ≤ top) ss
    → All (λ r. Within 2 100 r.width) (map (funnel_row top) ss)
rows-Within top [] h k = tt
rows-Within top (s ∷ ss) h (k, ks) = ((h, omega arith, omega arith), rows-Within top ss h ks)

-- The bars of the funnel are between 2 % and 100 % wide.
pub funnel-Within : (f : Funnel) → All (λ r. Within 2 100 r.width) (funnel f)
unfolding funnel
funnel-Within f =
    let vs = map (λ s. s.value) (stages f) in
    rows-Within (largest vs) (stages f) (largest-pos vs)
      (All-values (λ s. s.value) (λ v. v ≤ largest vs) (stages f) (le-largest vs))
