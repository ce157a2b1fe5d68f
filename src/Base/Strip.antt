-- ===== src/Base/Strip.antt =====
-- `replace` with a text and with a pattern, as the clients use it on the names of stores.
use mathlib.Core.List.{[], ◌∷◌}
use wachen.Base.Tests.{if◌then◌else◌, nat_eq}
use wachen.Base.Lists.{length, drop, includes}
use wachen.Base.Utf16.{Text, starts_with}

-- `s.replace(p, "")`, for a text `p`: its first occurrence goes.
abbrev pub without : Text → Text → Text
without p [] = []
without p (c ∷ s) = if starts_with (c ∷ s) p then drop (length p) (c ∷ s) else c ∷ without p s

-- `s.replace(/^[ -]+/, "")`
abbrev pub trim_dashes : Text → Text
trim_dashes [] = []
trim_dashes (c ∷ s) = if includes c (b' ' ∷ b'-' ∷ []) then trim_dashes s else c ∷ s
