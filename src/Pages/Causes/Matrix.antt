-- ===== src/Pages/Causes/Matrix.antt =====
-- The table of categories and brands.
use wachen.Base.{
  ℕ, ◌≤◌, List, [], ◌∷◌, map, Text, text_Eq, arith, any, cnt, true, ◌≡◌, ◌<◌, text_eq,
}
use wachen.Base.Predicates.{All, In, All-of_In}
use wachen.Case.{WaCase}
use wachen.Stats.{category_counts}
use wachen.Stats.Tally.{markings, category_counts_iff}
use wachen.Pages.Causes.{cell, top_brands, matrix_row}

any-cnt :
    (k : Text) (ks : List Text) → any (λ j. text_eq j k) ks ≡ true → 0 < cnt (λ j. text_eq j k) ks
any-cnt k [] h = cc
any-cnt k (j ∷ ks) h = ground (arith, any-cnt k ks)

cell-le : (cs : List WaCase) (k b : Text) → cell cs k b ≤ markings (λ c. c.categories) k cs
cell-le [] k b = omega arith
cell-le (c ∷ cs) k b = ground (arith, cell-le cs k b, any-cnt k c.categories)

cells-le :
    (cs : List WaCase) (k : Text) (bs : List Text)
    → All (λ v. v ≤ markings (λ c. c.categories) k cs) (map (cell cs k) bs)
cells-le cs k [] = tt
cells-le cs k (b ∷ bs) = (cell-le cs k b, cells-le cs k bs)

-- No number in a row of the table of causes is greater than the number that the statistics have for the
-- category of the row.
pub matrix_row-le :
    (cs : List WaCase)
    → All (λ e. All (λ v. v ≤ e.1) (matrix_row cs (top_brands cs) e).vals) (category_counts cs)
matrix_row-le cs =
    All-of_In (λ e. All (λ v. v ≤ e.1) (matrix_row cs (top_brands cs) e).vals) (category_counts cs)
      one
  where
    one :
        (e : Text × ℕ)
        → In e (category_counts cs)
        → All (λ v. v ≤ e.1) (matrix_row cs (top_brands cs) e).vals
    one (k, n) m =
        let (same, some_mark) = (category_counts_iff k n cs).0 m in
        rw same (cells-le cs k (top_brands cs))
