-- ===== src/Movies/Merge.antt =====
-- HW4/server.c: `merge` and `mergesort`, of the threads and of the processes, on the array of the
-- items that match a request. A range from `l` to `r` is given by `l` and `stop`, which is `r + 1`.
pub mod Laws
pub mod Ranges
pub mod Sorts
use system_programming_hw.Common.{
  ℕ, zero, suc, ◌+◌, ◌-◌, ◌/◌, Bool, true, false, List, [], ◌∷◌, ◌++◌, Option, none, some, leb,
  ◌==◌, take, drop, if◌then◌else◌, ◌>>=◌,
}
use system_programming_hw.Movies.Score.{Scores, Item, before}
use system_programming_hw.Movies.Select.{sort}

abbrev pub slice {ℓ} : {A : Type ℓ} → ℕ → ℕ → List A → List A
slice l stop xs = take (stop - l) (drop l xs)

-- `if (r - l + 1 <= SIZE_LIMIT)`, for the threads.
abbrev pub thread_leaf : ℕ → ℕ → Bool
thread_leaf level size = leb size 1024

-- `if (level == MAX_LEVEL)`, for the processes.
abbrev pub process_leaf : ℕ → ℕ → Bool
process_leaf level size = level == 4

module _ (scores : Scores) where
  -- The three `while` loops: the items from `idx_l` and from `idx_r` on. A tie goes to the right.
  unfoldable pub merge_items : List (Item scores) → List (Item scores) → List (Item scores)
  merge_items [] ys = ys
  merge_items (x ∷ xs) [] = x ∷ xs
  merge_items (x ∷ xs) (y ∷ ys) = elim (before scores x y) [
    | true ↦ x ∷ merge_items xs (y ∷ ys)
    | false ↦ y ∷ merge_items (x ∷ xs) ys
  ]

  -- `merge` of the halves of a range, copied back over the range.
  unfoldable pub merge : ℕ → ℕ → List (Item scores) → List (Item scores)
  unfolding merge_items
  merge l stop xs =
      let mid = (l + stop - 1) / 2 in
      take l xs ++ (merge_items (slice l (mid + 1) xs) (slice (mid + 1) stop xs) ++ drop stop xs)

  -- The call of `sort` on a range.
  unfoldable pub sort_range : ℕ → ℕ → ℕ → List (Item scores) → Option (List (Item scores))
  sort_range num_of_movies l stop xs = do
    ys ← sort scores num_of_movies (slice l stop xs)
    some (take l xs ++ (ys ++ drop stop xs))

  -- `mergesort`. The halves are disjoint ranges, which two threads or processes sort at once; here
  -- the left one is first. `none` is a failed assertion, or the end of the fuel.
  unfoldable pub mergesort :
      (leaf : ℕ → ℕ → Bool) (num_of_movies fuel level l stop : ℕ)
      → List (Item scores)
      → Option (List (Item scores))
  unfolding merge sort_range
  mergesort leaf num zero level l stop xs = none
  mergesort leaf num (suc fuel) level l stop xs =
      let mid = (l + stop - 1) / 2 in
      let halves =
        (mergesort leaf num fuel (suc level) l (mid + 1) xs >>= λ ys.
        mergesort leaf num fuel (suc level) (mid + 1) stop ys)
        >>= λ zs. some (merge l stop zs) in
      if leb stop l
      then some xs
      else (if leaf level (stop - l) then sort_range num l stop xs else halves)
