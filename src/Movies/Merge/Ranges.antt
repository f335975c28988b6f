-- ===== src/Movies/Merge/Ranges.antt =====
-- Ranges of the arrays of HW4, and what `mergesort` does to one.
use mathlib.Core.List.{Perm, append_assoc}
use system_programming_hw.Common.{
  ℕ, ◌+◌, ◌-◌, ◌/◌, ◌≡◌, sym, List, ◌++◌, Option, some, length, map, take, drop, All, arith,
  length-append, take-length, drop-length, ◌>>=◌,
}
use system_programming_hw.Movies.Score.{Scores, Item}
use system_programming_hw.Movies.Select.{sealed, sort}
use system_programming_hw.Movies.Select.Laws.{NonNeg}
use system_programming_hw.Movies.Select.Sorts.{IsSorted, IsShort}
use system_programming_hw.Movies.Merge.{slice, merge_items, merge, sort_range}
use system_programming_hw.Movies.Merge.Laws.{IsPlain}

module _ {ℓ} {A : Type ℓ} where
  pub take_at : (a r : List A) (l : ℕ) → l ≡ length a → take l (a ++ r) ≡ a
  take_at a r l e = rw e (take-length a r)

  pub drop_at : (a r : List A) (l : ℕ) → l ≡ length a → drop l (a ++ r) ≡ r
  drop_at a r l e = rw e (drop-length a r)

  pub slice_at :
      (a s b : List A) (l stop : ℕ)
      → l ≡ length a
      → stop ≡ length a + length s
      → slice l stop (a ++ (s ++ b)) ≡ s
  slice_at a s b l stop e f = rw (drop_at a (s ++ b) l e) (take_at s b (stop - l) (omega arith))

  pub drop_end :
      (a s b : List A) (stop : ℕ) → stop ≡ length a + length s → drop stop (a ++ (s ++ b)) ≡ b
  drop_end a s b stop f =
      rw (sym (append_assoc a s b)) (drop_at (a ++ s) b stop (omega (arith, length-append a s)))

  pub slice_second :
      (a s t b : List A) (l stop : ℕ)
      → l ≡ length a + length s
      → stop ≡ length a + length s + length t
      → slice l stop (a ++ (s ++ (t ++ b))) ≡ t
  slice_second a s t b l stop e f = rw (sym (append_assoc a s (t ++ b))) (
      slice_at (a ++ s) t b l stop (omega (arith, length-append a s))
        (omega (arith, length-append a s)))

  pub drop_second :
      (a s t b : List A) (stop : ℕ)
      → stop ≡ length a + length s + length t
      → drop stop (a ++ (s ++ (t ++ b))) ≡ b
  drop_second a s t b stop f =
      rw (sym (append_assoc a s (t ++ b)))
        (drop_end (a ++ s) t b stop (omega (arith, length-append a s)))

module _ (scores : Scores) where
  pub sort_range_lem :
      (num : ℕ) (a s b : List (Item scores)) (l stop : ℕ)
      → l ≡ length a
      → stop ≡ length a + length s
      → sort_range scores num l stop (a ++ (s ++ b))
        ≡ (sort scores num s >>= λ ys. some (a ++ (ys ++ b)))
  unfolding sort_range
  sort_range_lem num a s b l stop e f =
      rw (slice_at a s b l stop e f, take_at a (s ++ b) l e, drop_end a s b stop f)

  pub merge_lem :
      (a s t b : List (Item scores)) (l stop : ℕ)
      → l ≡ length a
      → (l + stop - 1) / 2 + 1 ≡ length a + length s
      → stop ≡ length a + length s + length t
      → merge scores l stop (a ++ (s ++ (t ++ b))) ≡ a ++ (merge_items scores s t ++ b)
  unfolding merge
  merge_lem a s t b l stop e m f = rw (
    slice_at a s (t ++ b) l _ e m,
    slice_second a s t b _ stop m f,
    drop_second a s t b stop f,
    take_at a (s ++ (t ++ b)) l e,
  )

  -- The range `s` between `a` and `b` is sorted and sealed in place.
  pub record SortsRange (a s b : List (Item scores)) (r : Option (List (Item scores)))
      : Type 1 where
    pub order : List (Item scores)
    pub returned : r ≡ some (a ++ (map (sealed scores) order ++ b))
    pub perm : Perm order s
    pub is_sorted : IsSorted scores order
    pub size : length order ≡ length s
    pub keeps : (P : Item scores → Type 0) → All P s → All P order

  -- What the items must satisfy.
  abbrev pub IsFit : Item scores → Type 0
  IsFit x = NonNeg scores x × IsShort scores x × IsPlain scores x
