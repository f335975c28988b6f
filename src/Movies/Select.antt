-- ===== src/Movies/Select.antt =====
-- HW4/lib.c: the sort by selection that also seals the names that it sorts.
pub mod Laws
pub mod Sorts
use system_programming_hw.Common.{
  ℕ, zero, suc, ◌-◌, Bool, ◌&&◌, List, [], ◌∷◌, ◌++◌, Option, none, some, ltb, leb, length,
  get_elem?, set, if◌then◌else◌, ◌>>=◌, map,
}
use system_programming_hw.Text.{codes, strcmp_lt}
use system_programming_hw.Movies.Score.{Scores, Item}

abbrev pub key : List ℕ
key = codes "\t[It's top secret.]"

module _ (scores : Scores) where
  open scores use {Score, minus_one, gtb, eqb}

  -- The `for` of `argmax`: the items from index `i` on, with `ret`, the name at `ret`, and `max`.
  unfoldable pub argmax_loop :
      List (Item scores) → ℕ → (ret : ℕ) → (best : List ℕ) → (max : Score) → ℕ × Score
  argmax_loop [] i ret best max = (ret, max)
  argmax_loop (x ∷ xs) i ret best max =
      let greater = argmax_loop xs (suc i) i x.name x.score in
      let tie = argmax_loop xs (suc i) i x.name max in
      let keep = argmax_loop xs (suc i) ret best max in
      if gtb x.score max
      then greater
      else (if eqb x.score max && strcmp_lt x.name best then tie else keep)

  -- The end of `argmax`: `assert(max >= 0.0)`.
  unfoldable pub checked : ℕ × Score → Option ℕ
  checked (ret, max) = if gtb scores.zero max then none else some ret

  -- `argmax` from the first of the items on; the index is counted from there.
  unfoldable pub argmax : Item scores → List (Item scores) → Option ℕ
  unfolding argmax_loop checked
  argmax x xs = checked (argmax_loop (x ∷ xs) 0 0 x.name minus_one)

  -- `swap` of the first item with the one at the index, after `assert(idx < size)`.
  unfoldable pub swap :
      ℕ → Item scores → List (Item scores) → Option (Item scores × List (Item scores))
  swap zero x xs = some (x, xs)
  swap (suc k) x xs = elim (get_elem? xs k) [ none ↦ none | some y ↦ some (y, set xs k x) ]

  abbrev pub sealed : Item scores → Item scores
  sealed x = record x { name = x.name ++ key }

  -- `add_secret`, with its `assert(length < MAX_LEN)`.
  unfoldable pub add_secret : Item scores → Option (Item scores)
  add_secret x = if ltb (length x.name) 255 then some (sealed x) else none

  -- `movies[size-1] = add_secret(...)`; on no items that is outside of the array.
  unfoldable pub seal_last : List (Item scores) → Option (List (Item scores))
  unfolding add_secret
  seal_last [] = none
  seal_last (x ∷ []) = add_secret x >>= λ z. some (z ∷ [])
  seal_last (x ∷ y ∷ xs) = seal_last (y ∷ xs) >>= λ zs. some (x ∷ zs)

  -- The `for` of `sort`, with the number of rounds left and the items from index `i` on.
  unfoldable pub sort_loop : ℕ → List (Item scores) → Option (List (Item scores))
  unfolding argmax swap add_secret seal_last
  sort_loop zero xs = seal_last xs
  sort_loop (suc n) [] = none
  sort_loop (suc n) (x ∷ xs) = do
    idx ← argmax x xs
    (y, ys) ← swap idx x xs
    z ← add_secret y
    zs ← sort_loop n ys
    some (z ∷ zs)

  -- `sort`, after the assertion of `validate` on the number of movies.
  unfoldable pub sort : ℕ → List (Item scores) → Option (List (Item scores))
  unfolding sort_loop
  sort num_of_movies xs =
      if leb (length xs) num_of_movies then sort_loop (length xs - 1) xs else none
