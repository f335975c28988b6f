-- ===== src/Movies/Select/Laws.antt =====
-- `argmax` finds an item that none precedes, and `sort` sorts.
use mathlib.Core.List.{append_assoc, append-nil}
use system_programming_hw.Common.{
  ℕ, zero, suc, ◌≡◌, refl, true, false, ◌&&◌, ◌||◌, List, [], ◌∷◌, ◌++◌, some, length, get_elem?,
  All, arith, length-append, Bool-cases, inl, inr,
}
use system_programming_hw.Text.{strcmp_lt}
use system_programming_hw.Movies.Score.{Scores, Item, before}
use system_programming_hw.Movies.Score.Order.{Le, All-Le, before-Le, Same}
use system_programming_hw.Movies.Select.{argmax_loop, argmax}

module _ (scores : Scores) where
  open scores use {Score, minus_one, gtb, eqb, gtb_asymm, gtb_cotrans, eqb_lem, minus_one_below}

  -- The two tests of the loop together are `before`, where `max` is the score of the best item.
  loop_test :
      (x b : Item scores) (max : Score)
      → Same scores b.score max
      → (gtb x.score max || (eqb x.score max && strcmp_lt x.name b.name)) ≡ before scores x b
  unfolding before
  loop_test x b max same = ground (
    arith,
    gtb_cotrans x.score max b.score,
    gtb_cotrans max b.score x.score,
    gtb_cotrans b.score max x.score,
    gtb_cotrans x.score b.score max,
    gtb_cotrans max x.score b.score,
    gtb_cotrans b.score x.score max,
    eqb_lem x.score max,
    eqb_lem x.score b.score,
  )

  abbrev pub Best : List (Item scores) → ℕ × Score → Type 0
  Best whole (r, m) =
      (b : Item scores) × (get_elem? whole r ≡ some b)
      × Same scores b.score m
      × All (Le scores b) whole

  get_elem?-middle :
      (done : List (Item scores)) (x : Item scores) (xs : List (Item scores))
      → get_elem? (done ++ x ∷ xs) (length done) ≡ some x
  get_elem?-middle [] x xs = refl
  get_elem?-middle (d ∷ done) x xs = get_elem?-middle done x xs

  All-snoc :
      (P : Item scores → Type 0) (xs : List (Item scores)) (x : Item scores)
      → All P xs
      → P x
      → All P (xs ++ x ∷ [])
  All-snoc P [] x h p = (p, tt)
  All-snoc P (y ∷ xs) x h p = (h.0, All-snoc P xs x h.1 p)

  -- `b` loses its place to an item that comes before it.
  replaces :
      (x b : Item scores) (done : List (Item scores))
      → before scores x b ≡ true
      → All (Le scores b) done
      → All (Le scores x) done
  replaces x b done h = All-Le scores x b done (before-Le scores x b h)

  Le_refl : (x : Item scores) → Le scores x x
  Le_refl x = elim (Bool-cases (before scores x x)) [
    | inl ordered ↦ before-Le scores x x ordered
    | inr unordered ↦ unordered
  ]

  Same-refl : (a : Score) → Same scores a a
  Same-refl a = ground (arith, gtb_asymm a a)

  argmax_loop-Best :
      (done rest : List (Item scores)) (i ret : ℕ) (b : Item scores) (max : Score)
      → i ≡ length done
      → get_elem? (done ++ rest) ret ≡ some b
      → Same scores b.score max
      → All (Le scores b) done
      → Best (done ++ rest) (argmax_loop scores rest i ret b.name max)
  unfolding argmax_loop
  argmax_loop-Best done [] i ret b max e at same le = (b, at, same, rw append-nil le)
  argmax_loop-Best done (x ∷ xs) i ret b max e at same le =
      let whole = append_assoc done (x ∷ []) xs in
      let i' : suc i ≡ length (done ++ x ∷ []) = omega (arith, length-append done (x ∷ [])) in
      elim (Bool-cases (gtb x.score max)) [
        | inl greater ↦ rw greater (
            rw whole at (
              argmax_loop-Best (done ++ x ∷ []) xs (suc i) i x x.score i'
                (rw (whole, e) (get_elem?-middle done x xs)) (Same-refl x.score)
                (All-snoc _ done x (replaces x b done (ground (arith, loop_test x b max same)) le)
                  (Le_refl x))))
        | inr not_greater ↦ elim (Bool-cases (eqb x.score max && strcmp_lt x.name b.name)) [
          | inl tie ↦
              rw (not_greater, tie)
                (rw whole at (
                  argmax_loop-Best (done ++ x ∷ []) xs (suc i) i x max i'
                    (rw (whole, e) (get_elem?-middle done x xs))
                    (ground (arith, eqb_lem x.score max))
                    (All-snoc _ done x
                      (replaces x b done (ground (arith, loop_test x b max same)) le) (Le_refl x))))
          | inr keep ↦
              rw (not_greater, keep)
                (rw whole at (
                  argmax_loop-Best (done ++ x ∷ []) xs (suc i) ret b max i' (rw whole at) same
                    (All-snoc _ done x le (ground (arith, loop_test x b max same)))))
        ]
      ]

  abbrev pub NonNeg : Item scores → Type 0
  NonNeg x = gtb scores.zero x.score ≡ false

  pub All-get :
      (P : Item scores → Type 0) (xs : List (Item scores)) (i : ℕ) {b : Item scores}
      → All P xs
      → get_elem? xs i ≡ some b
      → P b
  All-get P [] i h e = cc
  All-get P (x ∷ xs) zero {b} h e = let q : x ≡ b = cc in rw (← q) h.0
  All-get P (x ∷ xs) (suc i) h e = All-get P xs i h.1 e

  -- `argmax` passes its assertion and finds an item that no item precedes.
  pub argmax-Best :
      (x : Item scores) (xs : List (Item scores))
      → All NonNeg (x ∷ xs)
      → (idx : ℕ) × (b : Item scores) × (argmax scores x xs ≡ some idx)
        × (get_elem? (x ∷ xs) idx ≡ some b)
        × All (Le scores b) (x ∷ xs)
  unfolding argmax
  argmax-Best x xs nonneg =
      let first : gtb x.score minus_one ≡ true =
        ground (arith, gtb_cotrans scores.zero x.score minus_one, minus_one_below) in
      let found =
        argmax_loop-Best (x ∷ []) xs 1 0 x x.score refl refl (Same-refl x.score) (Le_refl x, tt) in
      let (b, at, same, le) = found in
      let nonneg_b =
        All-get NonNeg (x ∷ xs) (argmax_loop scores xs 1 0 x.name x.score).0 nonneg at in
      let test : gtb scores.zero (argmax_loop scores xs 1 0 x.name x.score).1 ≡ false = ground (
        arith,
        gtb_cotrans scores.zero (argmax_loop scores xs 1 0 x.name x.score).1 b.score,
        gtb_cotrans scores.zero b.score (argmax_loop scores xs 1 0 x.name x.score).1,
      ) in
      ((argmax_loop scores xs 1 0 x.name x.score).0, b, rw (first, test), at, le)
