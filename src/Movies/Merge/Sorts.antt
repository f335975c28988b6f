-- ===== src/Movies/Merge/Sorts.antt =====
-- `mergesort` of HW4/server.c sorts a range of the array and leaves the rest alone.
use mathlib.Core.List.{append_assoc}
use mathlib.Core.List.Perm
use system_programming_hw.Common.{
  ℕ, zero, suc, ◌+◌, ◌-◌, ◌/◌, ◌≤◌, ◌<◌, ◌≡◌, refl, sym, ap, Bool, false, List, [], ◌∷◌, ◌++◌,
  Option, some, length, map, take, drop, All, All-append_inv, All-take, All-drop, All-imp,
  length-map, arith, Bool-cases, inl, inr, length-append, take-append-drop, length-take,
  length-drop, leb, if◌then◌else◌, ◌>>=◌, leb→le,
}
use system_programming_hw.Movies.Score.{Scores, Item}
use system_programming_hw.Movies.Select.{sealed}
use system_programming_hw.Movies.Select.Laws.{NonNeg}
use system_programming_hw.Movies.Select.Sorts.{IsShort, sort-Sorts}
use system_programming_hw.Movies.Merge.{merge_items, merge, sort_range, mergesort}
use system_programming_hw.Movies.Merge.Laws.{
  IsPlain, merge_items-sealed, merge_items-perm, length-merge_items, All-merge_items,
  merge_items-IsSorted,
}
use system_programming_hw.Movies.Merge.Ranges.{sort_range_lem, merge_lem, SortsRange, IsFit}

module _ (scores : Scores) (leaf : ℕ → ℕ → Bool) (num : ℕ) where
  -- The two calls on the halves, and `merge`.
  abbrev both : ℕ → ℕ → ℕ → ℕ → List (Item scores) → Option (List (Item scores))
  both fuel level l stop xs =
      (mergesort scores leaf num fuel (suc level) l ((l + stop - 1) / 2 + 1) xs >>= λ ys.
      mergesort scores leaf num fuel (suc level) ((l + stop - 1) / 2 + 1) stop ys)
      >>= λ zs. some (merge scores l stop zs)

  SortsRange-empty :
      (a s b : List (Item scores)) → length s ≡ 0 → SortsRange scores a s b (some (a ++ (s ++ b)))
  SortsRange-empty a [] b e = record {
    order = [];
    returned = refl;
    perm = Perm.rfl;
    is_sorted = tt;
    size = refl;
    keeps = λ P h. h;
  }
  SortsRange-empty a (x ∷ s) b e = absurd (omega arith)

  pub SortsRange-leaf :
      (a s b : List (Item scores)) (l stop : ℕ)
      → l ≡ length a
      → stop ≡ length a + length s
      → 0 < length s
      → length s ≤ num
      → All (IsFit scores) s
      → SortsRange scores a s b (sort_range scores num l stop (a ++ (s ++ b)))
  SortsRange-leaf a s b l stop e f some_item few fit =
      let sorts =
        sort-Sorts scores num s some_item few
          (All-imp (IsFit scores) (NonNeg scores) s (λ x h. h.0) fit)
          (All-imp (IsFit scores) (IsShort scores) s (λ x h. h.1) fit) in
      record {
        order = sorts.order;
        returned = rw (sort_range_lem scores num a s b l stop e f, sorts.returned);
        perm = sorts.perm;
        is_sorted = sorts.is_sorted;
        size = sorts.size;
        keeps = sorts.keeps;
      }

  mergesort_halves :
      (fuel level : ℕ) (a s t b : List (Item scores)) (l stop : ℕ)
      → l ≡ length a
      → (l + stop - 1) / 2 + 1 ≡ length a + length s
      → stop ≡ length a + length s + length t
      → All (IsPlain scores) s
      → All (IsPlain scores) t
      → (left : SortsRange scores a s (t ++ b) (
          mergesort scores leaf num fuel
            (suc level)
            l
            ((l + stop - 1) / 2 + 1)
            (a ++ (s ++ (t ++ b)))))
      → SortsRange scores (a ++ map (sealed scores) left.order) t b (
          mergesort scores leaf num fuel
            (suc level)
            ((l + stop - 1) / 2 + 1)
            stop
            ((a ++ map (sealed scores) left.order) ++ (t ++ b)))
      → SortsRange scores a (s ++ t) b (both fuel level l stop (a ++ (s ++ (t ++ b))))
  mergesort_halves fuel level a s t b l stop e m f ps pt left right = record {
    order = merge_items scores left.order right.order;
    returned =
        let done = map (sealed scores) left.order in
        let second =
          rw
            (
              append_assoc a done (t ++ b),
              append_assoc a done (map (sealed scores) right.order ++ b),
            )
            at right.returned in
        rw (
          left.returned,
          second,
          merge_lem scores a done (map (sealed scores) right.order) b l stop e
              (omega (arith, length-map (sealed scores) left.order, left.size))
              (omega (
                arith,
                length-map (sealed scores) left.order,
                left.size,
                length-map (sealed scores) right.order,
                right.size,
              )),
          merge_items-sealed scores left.order right.order (left.keeps _ ps) (right.keeps _ pt),
        );
    perm =
        Perm.trans (merge_items-perm scores left.order right.order)
          (Perm.append left.perm right.perm);
    is_sorted = merge_items-IsSorted scores left.order right.order left.is_sorted right.is_sorted;
    size = omega (
      arith,
      length-merge_items scores left.order right.order,
      length-append s t,
      left.size,
      right.size,
    );
    keeps = λ P h.
        All-merge_items scores P left.order right.order (left.keeps P (All-append_inv P s t h).0)
          (right.keeps P (All-append_inv P s t h).1);
  }

  mergesort-suc :
      (fuel level l stop : ℕ) (xs : List (Item scores))
      → mergesort scores leaf num (suc fuel) level l stop xs ≡ (
          if leb stop l
          then some xs
          else (if leaf level (stop - l)
              then sort_range scores num l stop xs
              else both fuel level l stop xs))
  unfolding mergesort
  mergesort-suc fuel level l stop xs = refl

  -- A range of more than one part, from what the calls on the halves do.
  SortsRange-split :
      (fuel level : ℕ) (a s b : List (Item scores)) (l stop k : ℕ)
      → l ≡ length a
      → stop ≡ length a + length s
      → k ≡ (length s - 1) / 2 + 1
      → 0 < length s
      → All (IsFit scores) s
      → (left : SortsRange scores a (take k s) (drop k s ++ b) (
          mergesort scores leaf num fuel
            (suc level)
            l
            ((l + stop - 1) / 2 + 1)
            (a ++ (take k s ++ (drop k s ++ b)))))
      → SortsRange scores (a ++ map (sealed scores) left.order) (drop k s) b (
          mergesort scores leaf num fuel
            (suc level)
            ((l + stop - 1) / 2 + 1)
            stop
            ((a ++ map (sealed scores) left.order) ++ (drop k s ++ b)))
      → SortsRange scores a s b (both fuel level l stop (a ++ (s ++ b)))
  SortsRange-split fuel level a s b l stop k e f q some_item fit left right =
      let plain = All-imp (IsFit scores) (IsPlain scores) s (λ x h. h.2) fit in
      let whole =
        mergesort_halves fuel level a (take k s) (drop k s) b l stop e
          (omega (arith, length-take k s)) (omega (arith, length-take k s, length-drop k s))
          (All-take _ k s plain) (All-drop _ k s plain) left right in
      rw take-append-drop at (rw (sym (append_assoc (take k s) (drop k s) b)) at whole)

module _ (scores : Scores) (leaf : ℕ → ℕ → Bool) (num : ℕ) (Fits : ℕ → ℕ → ℕ → Type 0)
    (some_fuel : (level size : ℕ) → Fits 0 level size → ⊥)
    (halve : (fuel level size half : ℕ)
      → Fits (suc fuel) level size
      → leaf level size ≡ false
      → 0 < size
      → half ≤ (size + 1) / 2
      → Fits fuel (suc level) half) where
  -- For any test for leaves and any measure of fuel that is enough for the halves of a range where
  -- it is enough for the range, and given enough fuel: `mergesort` of a range of no more items than
  -- there are movies, with plain names shorter than 255 bytes and no negative scores, returns the
  -- array with the items of the range sorted and sealed, and all other items as they were.
  pub mergesort-SortsRange :
      (fuel level : ℕ) (a s b : List (Item scores)) (l stop : ℕ)
      → l ≡ length a
      → stop ≡ length a + length s
      → Fits fuel level (length s)
      → length s ≤ num
      → All (IsFit scores) s
      → SortsRange scores a s b (mergesort scores leaf num fuel level l stop (a ++ (s ++ b)))
  mergesort-SortsRange zero level a s b l stop e f fuel_left few fit =
      absurd (some_fuel level (length s) fuel_left)
  mergesort-SortsRange (suc fuel) level a s b l stop e f fuel_left few fit =
      elim (Bool-cases (leb stop l)) [
        | inl empty ↦
            rw (mergesort-suc scores leaf num fuel level l stop (a ++ (s ++ b)), empty)
              (SortsRange-empty scores leaf num a s b (ground (arith, leb→le stop l)))
        | inr some_item ↦ elim (Bool-cases (leaf level (stop - l))) [
          | inl small ↦
              rw (mergesort-suc scores leaf num fuel level l stop (a ++ (s ++ b)), some_item, small)
                (SortsRange-leaf scores leaf num a s b l stop e f (ground arith) few fit)
          | inr large ↦
              let k = (length s - 1) / 2 + 1 in
              let more : 0 < length s = ground arith in
              let big : leaf level (length s) ≡ false =
                rw (ap (leaf level) (let q : stop - l ≡ length s = omega arith in q)) at large in
              let left =
                mergesort-SortsRange fuel (suc level) a (take k s) (drop k s ++ b) l
                  ((l + stop - 1) / 2 + 1) e (omega (arith, length-take k s))
                  (halve fuel level (length s) (length (take k s)) fuel_left big more
                    (omega (arith, length-take k s)))
                  (omega (arith, length-take k s)) (All-take _ k s fit) in
              let done = map (sealed scores) left.order in
              rw (mergesort-suc scores leaf num fuel level l stop (a ++ (s ++ b)), some_item, large)
                (SortsRange-split scores leaf num fuel level a s b l stop k e f refl more fit left (
                  mergesort-SortsRange fuel (suc level) (a ++ done) (drop k s) b
                    ((l + stop - 1) / 2 + 1) stop
                    (omega (
                      arith,
                      length-append a done,
                      length-map (sealed scores) left.order,
                      left.size,
                      length-take k s,
                    ))
                    (omega (
                      arith,
                      length-append a done,
                      length-map (sealed scores) left.order,
                      left.size,
                      length-take k s,
                      length-drop k s,
                    ))
                    (halve fuel level (length s) (length (drop k s)) fuel_left big more
                      (omega (arith, length-drop k s)))
                    (omega (arith, length-drop k s)) (All-drop _ k s fit)))
        ]
      ]
