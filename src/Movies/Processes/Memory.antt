-- ===== src/Movies/Processes/Memory.antt =====
-- The shared memory stands for a list of items: as long as no two cells have one buffer, a leaf and
-- `merge` do to it what `sort` and `merge` of Movies/Merge do to the list.
use mathlib.Core.List.{map-append}
use system_programming_hw.Common.{
  ℕ, zero, suc, ◌+◌, ◌-◌, ◌/◌, ◌≤◌, ◌<◌, ◌≡◌, refl, sym, ap, ◌∙◌, true, false, List, [], ◌∷◌, ◌++◌,
  map, take, drop, ◌==◌, if◌then◌else◌, arith, take-append-drop, Bool-cases, inl, inr,
}
use system_programming_hw.Movies.Score.{Scores, before}
use system_programming_hw.Movies.Merge as Merge
use system_programming_hw.Movies.Merge.{slice, merge_items}
use system_programming_hw.Movies.Merge.Laws.{merge_items-left, merge_items-right}
use system_programming_hw.Movies.Processes.{Cell, Shared, load, merge_cells, merge, items}

module _ {ℓ} {A : Type ℓ} where
  take-nil : (n : ℕ) → ◌≡◌ {A = List A} (take n []) []
  take-nil zero = refl
  take-nil (suc n) = refl

  pub slice-drop : (l m : ℕ) (xs : List A) → l ≤ m → slice l m xs ++ drop m xs ≡ drop l xs
  slice-drop zero m xs h = rw (let e : m - 0 ≡ m = omega arith in e) (take-append-drop m xs)
  slice-drop (suc l) zero xs h = absurd (omega arith)
  slice-drop (suc l) (suc m) [] h =
      rw (let e : suc m - suc l ≡ m - l = omega arith in e, take-nil (m - l)) refl
  slice-drop (suc l) (suc m) (x ∷ xs) h =
      rw (let e : suc m - suc l ≡ m - l = omega arith in e) (slice-drop l m xs (omega arith))

module _ {ℓ κ} {A : Type ℓ} {B : Type κ} (f : A → B) where
  pub map-take : (n : ℕ) (xs : List A) → map f (take n xs) ≡ take n (map f xs)
  map-take zero xs = refl
  map-take (suc n) [] = refl
  map-take (suc n) (x ∷ xs) = ap (◌∷◌ (f x)) (map-take n xs)

  pub map-drop : (n : ℕ) (xs : List A) → map f (drop n xs) ≡ drop n (map f xs)
  map-drop zero xs = refl
  map-drop (suc n) [] = refl
  map-drop (suc n) (x ∷ xs) = map-drop n xs

  pub map-slice : (l m : ℕ) (xs : List A) → map f (slice l m xs) ≡ slice l m (map f xs)
  map-slice l m xs = map-take (m - l) (drop l xs) ∙ ap (take (m - l)) (map-drop l xs)

  -- A range that is replaced.
  pub map-replaced :
      (l m : ℕ) (xs ys : List A)
      → map f (take l xs ++ (ys ++ drop m xs))
        ≡ take l (map f xs) ++ (map f ys ++ drop m (map f xs))
  map-replaced l m xs ys = rw (
    map-append f (take l xs) (ys ++ drop m xs),
    map-append f ys (drop m xs),
    map-take l xs,
    map-drop m xs,
  )

module _ (scores : Scores) where
  module _ (text : ℕ → List ℕ) (x y : Cell scores) (xs ys : List (Cell scores)) where
    merge_cells-left :
        before scores (load scores text x) (load scores text y) ≡ true
        → merge_cells scores text (x ∷ xs) (y ∷ ys) ≡ x ∷ merge_cells scores text xs (y ∷ ys)
    unfolding merge_cells
    merge_cells-left h = ground arith

    merge_cells-right :
        before scores (load scores text x) (load scores text y) ≡ false
        → merge_cells scores text (x ∷ xs) (y ∷ ys) ≡ y ∷ merge_cells scores text (x ∷ xs) ys
    unfolding merge_cells
    merge_cells-right h = ground arith

  pub merge_cells_lem :
      (text : ℕ → List ℕ) (xs ys : List (Cell scores))
      → map (load scores text) (merge_cells scores text xs ys)
        ≡ merge_items scores (map (load scores text) xs) (map (load scores text) ys)
  unfolding merge_cells merge_items
  merge_cells_lem text [] ys = refl
  merge_cells_lem text (x ∷ xs) [] = refl
  merge_cells_lem text (x ∷ xs) (y ∷ ys) =
      elim (Bool-cases (before scores (load scores text x) (load scores text y))) [
        | inl first ↦
            ap (map (load scores text)) (merge_cells-left text x y xs ys first)
            ∙ ap (◌∷◌ (load scores text x)) (merge_cells_lem text xs (y ∷ ys))
            ∙ sym (merge_items-left scores _ _ _ _ first)
        | inr second ↦
            ap (map (load scores text)) (merge_cells-right text x y xs ys second)
            ∙ ap (◌∷◌ (load scores text y)) (merge_cells_lem text (x ∷ xs) ys)
            ∙ sym (merge_items-right scores _ _ _ _ second)
      ]

  pub items-merge :
      (l stop : ℕ) (s : Shared scores)
      → items scores (merge scores l stop s) ≡ Merge.merge scores l stop (items scores s)
  unfolding merge Merge.merge
  items-merge l stop s =
      let mid = (l + stop - 1) / 2 in
      rw (
        map-replaced (load scores s.text) l stop s.cells _,
        merge_cells_lem s.text (slice l (mid + 1) s.cells) (slice (mid + 1) stop s.cells),
        map-slice (load scores s.text) l (mid + 1) s.cells,
        map-slice (load scores s.text) (mid + 1) stop s.cells,
      )

  -- How many cells have the buffer `p`.
  unfoldable pub occurs : ℕ → List (Cell scores) → ℕ
  occurs p [] = 0
  occurs p (c ∷ cs) = (if c.pointer == p then 1 else 0) + occurs p cs

  -- No two cells have one buffer.
  abbrev pub IsDistinct : List (Cell scores) → Type 0
  IsDistinct cs = (p : ℕ) → occurs p cs ≤ 1

  pub occurs-append :
      (p : ℕ) (xs ys : List (Cell scores)) → occurs p (xs ++ ys) ≡ occurs p xs + occurs p ys
  unfolding occurs
  occurs-append p [] ys = omega arith
  occurs-append p (x ∷ xs) ys = omega (arith, occurs-append p xs ys)

  occurs-merge_cells :
      (p : ℕ) (text : ℕ → List ℕ) (xs ys : List (Cell scores))
      → occurs p (merge_cells scores text xs ys) ≡ occurs p xs + occurs p ys
  unfolding occurs merge_cells
  occurs-merge_cells p text [] ys = omega arith
  occurs-merge_cells p text (x ∷ xs) [] = omega arith
  occurs-merge_cells p text (x ∷ xs) (y ∷ ys) =
      elim (Bool-cases (before scores (load scores text x) (load scores text y))) [
        | inl first ↦
            rw (merge_cells-left text x y xs ys first)
              (omega (arith, occurs-merge_cells p text xs (y ∷ ys)))
        | inr second ↦
            rw (merge_cells-right text x y xs ys second)
              (omega (arith, occurs-merge_cells p text (x ∷ xs) ys))
      ]

  -- A range and what is around it.
  pub occurs-parts :
      (p l m : ℕ) (xs : List (Cell scores))
      → l ≤ m
      → occurs p xs ≡ occurs p (take l xs) + (occurs p (slice l m xs) + occurs p (drop m xs))
  occurs-parts p l m xs h =
      ap (occurs p) (sym (take-append-drop l xs))
      ∙ occurs-append p (take l xs) (drop l xs)
      ∙ ap (λ n. occurs p (take l xs) + n)
          (ap (occurs p) (sym (slice-drop l m xs h)) ∙ occurs-append p (slice l m xs) (drop m xs))

  pub merge-IsDistinct :
      (l stop : ℕ) (s : Shared scores)
      → l < stop
      → IsDistinct s.cells
      → IsDistinct (merge scores l stop s).cells
  unfolding merge
  merge-IsDistinct l stop s h d p =
      let m = (l + stop - 1) / 2 + 1 in
      let xs = s.cells in
      omega (
        arith,
        d p,
        occurs-append p (take l xs)
            (merge_cells scores s.text (slice l m xs) (slice m stop xs) ++ drop stop xs),
        occurs-append p (merge_cells scores s.text (slice l m xs) (slice m stop xs)) (drop stop xs),
        occurs-merge_cells p s.text (slice l m xs) (slice m stop xs),
        occurs-parts p l m xs (omega arith),
        ap (occurs p) (slice-drop m stop xs (omega arith)),
        occurs-append p (slice m stop xs) (drop stop xs),
      )
