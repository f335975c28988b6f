-- ===== src/Movies/Processes/Leaf.antt =====
-- A leaf of the processes: what it writes back to the shared memory stands for the sorted range.
use mathlib.Core.List.{map-append}
use system_programming_hw.Common.{
  ℕ, ◌+◌, ◌≤◌, ◌<◌, ◌≡◌, sym, ap, ◌∙◌, List, ◌++◌, map, Option, none, some, take, drop, length,
  length-map, arith, Option-cases, inl, inr, Every,
}
use system_programming_hw.Movies.Score.{Scores, Item}
use system_programming_hw.Movies.Select.{sort}
use system_programming_hw.Movies.Merge.{slice, sort_range}
use system_programming_hw.Movies.Processes.{Cell, Shared, load, copy_back, sort_leaf, items}
use system_programming_hw.Movies.Processes.Memory.{
  map-slice, map-take, map-drop, occurs, IsDistinct, occurs-append, occurs-parts,
}
use system_programming_hw.Movies.Processes.Buffers.{
  sort-length, copy_back-other, occurs-copy_back, copy_back-items, load-kept,
}

module _ (scores : Scores) where
  -- The results of a leaf on the shared memory and of `sort` on a range of the items agree.
  pub data Agree : Option (Shared scores) → Option (List (Item scores)) → Type 0 where
    both_fail : Agree none none
    both_sort :
        (t : Shared scores) → IsDistinct scores t.cells → Agree (some t) (some (items scores t))

  module _ (l stop : ℕ) (s : Shared scores) (ys : List (Item scores)) where
    -- The memory after `ys` has been written back over the range.
    abbrev written : Shared scores
    written =
        let range = copy_back scores (slice l stop s.cells) ys s.text in
        record { cells = take l s.cells ++ (range.0 ++ drop stop s.cells); text = range.1 }

    module _ (h : l < stop) (d : IsDistinct scores s.cells) where
      parts :
          (p : ℕ)
          → occurs scores p (take l s.cells)
              + (occurs scores p (slice l stop s.cells) + occurs scores p (drop stop s.cells))
            ≤ 1
      parts p = omega (arith, d p, occurs-parts scores p l stop s.cells (omega arith))

      -- Cells outside of the range stand for what they stood for.
      outside :
          (cs : List (Cell scores))
          → ((p : ℕ) → occurs scores p (slice l stop s.cells) + occurs scores p cs ≤ 1)
          → map (load scores written.text) cs ≡ map (load scores s.text) cs
      outside cs apart = load-kept scores s.text written.text cs (λ p some_cell.
          copy_back-other scores p (slice l stop s.cells) ys s.text
            (omega (arith, apart p, some_cell)))

      written-IsDistinct : IsDistinct scores written.cells
      written-IsDistinct p =
          let range = copy_back scores (slice l stop s.cells) ys s.text in
          omega (
            arith,
            parts p,
            occurs-append scores p (take l s.cells) (range.0 ++ drop stop s.cells),
            occurs-append scores p range.0 (drop stop s.cells),
            occurs-copy_back scores p (slice l stop s.cells) ys s.text,
          )

      items-written :
          length ys ≡ length (slice l stop (items scores s))
          → items scores written ≡ take l (items scores s) ++ (ys ++ drop stop (items scores s))
      items-written e =
          let f = load scores s.text in
          let g = load scores written.text in
          let range = copy_back scores (slice l stop s.cells) ys s.text in
          let size : length ys ≡ length (slice l stop s.cells) =
            e
            ∙ sym (ap length (map-slice f l stop s.cells))
            ∙ length-map f (slice l stop s.cells) in
          rw (
            map-append g (take l s.cells) (range.0 ++ drop stop s.cells),
            map-append g range.0 (drop stop s.cells),
            outside (take l s.cells) (λ p. omega (arith, parts p)),
            outside (drop stop s.cells) (λ p. omega (arith, parts p)),
            copy_back-items scores (slice l stop s.cells) ys s.text size
                (λ p. omega (arith, parts p)),
            map-take f l s.cells,
            map-drop f stop s.cells,
          )

  -- A leaf sorts the range of the items, or its assertions fail where those of `sort` do.
  pub sort_leaf-Agree :
      (num l stop : ℕ) (s : Shared scores)
      → l < stop
      → IsDistinct scores s.cells
      → Agree (sort_leaf scores num l stop s) (sort_range scores num l stop (items scores s))
  unfolding sort_leaf sort_range
  sort_leaf-Agree num l stop s h d =
      let same = map-slice (load scores s.text) l stop s.cells in
      elim (Option-cases (sort scores num (slice l stop (items scores s)))) [
        | inl fails ↦ rw (same, fails) both_fail
        | inr (ys, sorts) ↦
            let sized = sort-length scores num (slice l stop (items scores s)) in
            let size : length ys ≡ length (slice l stop (items scores s)) =
              rw (sorts, Every) at sized in
            rw (same, sorts, sym (items-written l stop s ys h d size))
              (both_sort (written l stop s ys) (written-IsDistinct l stop s ys h d))
      ]
