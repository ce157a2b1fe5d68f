-- ===== src/Stats/Tests.antt =====
-- Runs of the statistics.
use wachen.Base.{◌↔◌, utf16, Text, length, Bool, ltb}
use wachen.Base.Predicates.{In}
use wachen.Stats.{Month, monthly}
use wachen.Stats.Months.{CountsMonth, monthly_iff}
use wachen.Samples.{both}

-- An order on texts: the shorter first.
abbrev shorter : Text → Text → Bool
shorter a b = ltb (length a) (length b)

abbrev june : Month
june = record { reviews = 1; neg = 1 }

monthly_iff_example :
    In (utf16 "2026-06", june) (monthly shorter both) ↔ CountsMonth (utf16 "2026-06") june both
monthly_iff_example = monthly_iff shorter (utf16 "2026-06") june both
