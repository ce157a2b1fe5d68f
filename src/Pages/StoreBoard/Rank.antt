-- ===== src/Pages/StoreBoard/Rank.antt =====
-- The rank that the board of a store shows.
use wachen.Base.{
  subst, sym, or_else, ltb, ◌≡◌, refl, ◌∙◌, ap, ℕ, ◌<◌, ◌≤◌, Bool, true, ◌||◌, List, [], ◌∷◌, some,
  Text, arith, any, filter, find, position, length, text_Eq, ◌==◌, ==_refl,
}
use wachen.Base.Sort.{insert, sort, length-sort}
use wachen.Case.{WaCase, WaStore}
use wachen.Pages.StoreBoard.{rank_of, board, board_of}

module _ {A : Type 0} where
  position_le : (p : A → Bool) (xs : List A) → position p xs ≤ length xs
  position_le p [] = omega arith
  position_le p (x ∷ xs) = ground (arith, position_le p xs)

  position_pos : (p : A → Bool) (xs : List A) → any p xs ≡ true → 0 < position p xs
  position_pos p [] h = cc
  position_pos p (x ∷ xs) h = ground (arith, position_pos p xs)

  any-insert :
      (p : A → Bool) (before : A → A → Bool) (x : A) (ys : List A)
      → any p (insert before x ys) ≡ any p (x ∷ ys)
  any-insert p before x [] = refl
  any-insert p before x (y ∷ ys) = ground (arith, any-insert p before x ys)

  any-sort :
      (p : A → Bool) (before : A → A → Bool) (xs : List A) → any p (sort before xs) ≡ any p xs
  unfolding sort
  any-sort p before [] = refl
  any-sort p before (x ∷ xs) =
      any-insert p before x (sort before xs) ∙ ap (λ b. p x || b) (any-sort p before xs)

  find-any :
      (p q : A → Bool) (xs : List A) {a : A}
      → find p xs ≡ some a
      → q a ≡ true
      → any p (filter q xs) ≡ true
  find-any p q [] h k = cc
  find-any p q (x ∷ xs) {a} h k = ground (arith, find-any p q xs {a = a})

board_of-rank :
    (precedes : Text → Text → Bool) (now : ℕ) (stores : List WaStore) (name : Text)
    (cases : List WaCase) (so : WaStore)
    → find (λ s. s.store == name) stores ≡ some so
    → let b = board_of precedes now stores name so cases in
      (b.store ≡ so) × (0 < b.rank) × (b.rank ≤ b.in_region)
unfolding board_of rank_of
board_of-rank precedes now stores name cases so h =
    let named = λ (s : WaStore). s.store == name in
    let near = λ (s : WaStore). s.region == so.region in
    let fewest = λ (a b : WaStore). ltb a.neg b.neg in
    let there =
      any-sort named fewest (filter near stores)
      ∙ find-any named near stores h (==_refl so.region) in
    (
      refl,
      position_pos named (sort fewest (filter near stores)) there,
      omega (
        arith,
        position_le named (sort fewest (filter near stores)),
        length-sort fewest (filter near stores),
      ),
    )

-- Where the data has the store of the role, the board shows its rank in its region, from 1 to the
-- number of the stores there.
pub board-rank :
    (precedes : Text → Text → Bool) (now : ℕ) (first : WaStore) (others : List WaStore)
    (name : Text) (cases : List WaCase) (so : WaStore)
    → find (λ s. s.store == name) (first ∷ others) ≡ some so
    → let b = board precedes now first others (some name) cases in
      (b.store ≡ so) × (0 < b.rank) × (b.rank ≤ b.in_region)
unfolding board
board-rank precedes now first others name cases so h =
    subst
      (λ o.
        let b = board_of precedes now (first ∷ others) name (or_else o first) cases in
        (b.store ≡ so) × (0 < b.rank) × (b.rank ≤ b.in_region))
      (sym h) (board_of-rank precedes now (first ∷ others) name cases so h)
