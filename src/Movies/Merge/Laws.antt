-- ===== src/Movies/Merge/Laws.antt =====
-- What `merge` does to two sorted runs of sealed items.
use mathlib.Core.List.{Perm, perm_middle, append-nil}
use mathlib.Core.List.Perm
use system_programming_hw.Common.{
  ℕ, ◌+◌, ◌<◌, ◌≡◌, refl, sym, ap, ◌∙◌, true, false, List, [], ◌∷◌, ◌++◌, length, map, All, arith,
  Bool-cases, inl, inr,
}
use system_programming_hw.Text.{strcmp_lt}
use system_programming_hw.Movies.Score.{Scores, Item, before}
use system_programming_hw.Movies.Score.Order.{Le, All-Le, before-Le}
use system_programming_hw.Movies.Select.{sealed, key}
use system_programming_hw.Movies.Select.Sorts.{IsSorted}
use system_programming_hw.Movies.Merge.{merge_items}

-- Every byte of the name is above the tab with which the seal begins.
abbrev pub IsPlainName : List ℕ → Type 0
IsPlainName = All (λ c. 9 < c)

-- A common suffix that begins with a smaller byte than any of the names changes no comparison.
strcmp_lt-key :
    (s t : List ℕ) → IsPlainName s → IsPlainName t → strcmp_lt (s ++ key) (t ++ key) ≡ strcmp_lt s t
unfolding strcmp_lt
strcmp_lt-key [] [] hs ht = refl
strcmp_lt-key [] (d ∷ t) hs ht = ground arith
strcmp_lt-key (c ∷ s) [] hs ht = ground arith
strcmp_lt-key (c ∷ s) (d ∷ t) hs ht = ground (arith, strcmp_lt-key s t hs.1 ht.1)

module _ (scores : Scores) where
  abbrev pub IsPlain : Item scores → Type 0
  IsPlain x = IsPlainName x.name

  -- Sealing keeps the order of plain names.
  pub before-sealed :
      (x y : Item scores)
      → IsPlain x
      → IsPlain y
      → before scores (sealed scores x) (sealed scores y) ≡ before scores x y
  unfolding before
  before-sealed x y hx hy = rw (strcmp_lt-key x.name y.name hx hy)

  pub merge_items-left :
      (x y : Item scores) (xs ys : List (Item scores))
      → before scores x y ≡ true
      → merge_items scores (x ∷ xs) (y ∷ ys) ≡ x ∷ merge_items scores xs (y ∷ ys)
  unfolding merge_items
  merge_items-left x y xs ys h = ground arith

  pub merge_items-right :
      (x y : Item scores) (xs ys : List (Item scores))
      → before scores x y ≡ false
      → merge_items scores (x ∷ xs) (y ∷ ys) ≡ y ∷ merge_items scores (x ∷ xs) ys
  unfolding merge_items
  merge_items-right x y xs ys h = ground arith

  pub merge_items-sealed :
      (xs ys : List (Item scores))
      → All IsPlain xs
      → All IsPlain ys
      → merge_items scores (map (sealed scores) xs) (map (sealed scores) ys)
        ≡ map (sealed scores) (merge_items scores xs ys)
  unfolding merge_items
  merge_items-sealed [] ys hx hy = refl
  merge_items-sealed (x ∷ xs) [] hx hy = refl
  merge_items-sealed (x ∷ xs) (y ∷ ys) hx hy = elim (Bool-cases (before scores x y)) [
    | inl first ↦
        merge_items-left _ _ _ _ (before-sealed x y hx.0 hy.0 ∙ first)
        ∙ ap (◌∷◌ (sealed scores x)) (merge_items-sealed xs (y ∷ ys) hx.1 hy)
        ∙ ap (map (sealed scores)) (sym (merge_items-left x y xs ys first))
    | inr second ↦
        merge_items-right _ _ _ _ (before-sealed x y hx.0 hy.0 ∙ second)
        ∙ ap (◌∷◌ (sealed scores y)) (merge_items-sealed (x ∷ xs) ys hx hy.1)
        ∙ ap (map (sealed scores)) (sym (merge_items-right x y xs ys second))
  ]

  pub merge_items-perm : (xs ys : List (Item scores)) → Perm (merge_items scores xs ys) (xs ++ ys)
  unfolding merge_items
  merge_items-perm [] ys = Perm.rfl
  merge_items-perm (x ∷ xs) [] = rw append-nil Perm.rfl
  merge_items-perm (x ∷ xs) (y ∷ ys) = elim (Bool-cases (before scores x y)) [
    | inl first ↦ rw (merge_items-left x y xs ys first) (Perm.cons x (merge_items-perm xs (y ∷ ys)))
    | inr second ↦ rw (merge_items-right x y xs ys second) (
        Perm.trans (Perm.cons y (merge_items-perm (x ∷ xs) ys))
          (Perm.symm (perm_middle (x ∷ xs) ys)))
  ]

  pub length-merge_items :
      (xs ys : List (Item scores)) → length (merge_items scores xs ys) ≡ length xs + length ys
  unfolding merge_items
  length-merge_items [] ys = omega arith
  length-merge_items (x ∷ xs) [] = omega arith
  length-merge_items (x ∷ xs) (y ∷ ys) =
      ground (arith, length-merge_items xs (y ∷ ys), length-merge_items (x ∷ xs) ys)

  pub All-merge_items :
      (P : Item scores → Type 0) (xs ys : List (Item scores))
      → All P xs
      → All P ys
      → All P (merge_items scores xs ys)
  unfolding merge_items
  All-merge_items P [] ys hx hy = hy
  All-merge_items P (x ∷ xs) [] hx hy = hx
  All-merge_items P (x ∷ xs) (y ∷ ys) hx hy = elim (Bool-cases (before scores x y)) [
    | inl first ↦
        rw (merge_items-left x y xs ys first) (hx.0, All-merge_items P xs (y ∷ ys) hx.1 hy)
    | inr second ↦
        rw (merge_items-right x y xs ys second) (hy.0, All-merge_items P (x ∷ xs) ys hx hy.1)
  ]

  pub merge_items-IsSorted :
      (xs ys : List (Item scores))
      → IsSorted scores xs
      → IsSorted scores ys
      → IsSorted scores (merge_items scores xs ys)
  unfolding merge_items
  merge_items-IsSorted [] ys hx hy = hy
  merge_items-IsSorted (x ∷ xs) [] hx hy = hx
  merge_items-IsSorted (x ∷ xs) (y ∷ ys) hx hy = elim (Bool-cases (before scores x y)) [
    | inl first ↦
        let le = before-Le scores x y first in
        rw (merge_items-left x y xs ys first) (
          All-merge_items (Le scores x) xs (y ∷ ys) hx.0 (le, All-Le scores x y ys le hy.0),
          merge_items-IsSorted xs (y ∷ ys) hx.1 hy,
        )
    | inr le ↦ rw (merge_items-right x y xs ys le) (
      All-merge_items (Le scores y) (x ∷ xs) ys (le, All-Le scores y x xs le hx.0) hy.0,
      merge_items-IsSorted (x ∷ xs) ys hx hy.1,
    )
  ]
