-- ===== src/Movies/Score/Order.antt =====
-- `before` is a strict weak order.
use system_programming_hw.Common.{
  ℕ, ◌≡◌, refl, true, false, List, [], ◌∷◌, arith, All, Bool-cases, inl, inr,
}
use system_programming_hw.Text.{strcmp_lt}
use system_programming_hw.Movies.Score.{Scores, Item, before}

pub strcmp_lt-asymm : (s t : List ℕ) → strcmp_lt s t ≡ true → strcmp_lt t s ≡ false
unfolding strcmp_lt
strcmp_lt-asymm s [] h = cc
strcmp_lt-asymm [] (d ∷ t) h = refl
strcmp_lt-asymm (c ∷ s) (d ∷ t) h = ground (arith, strcmp_lt-asymm s t)

pub strcmp_lt-cotrans :
    (s t u : List ℕ) → strcmp_lt s u ≡ true → strcmp_lt s t ≡ false → strcmp_lt t u ≡ true
unfolding strcmp_lt
strcmp_lt-cotrans s t [] h k = cc
strcmp_lt-cotrans [] [] (e ∷ u) h k = refl
strcmp_lt-cotrans [] (d ∷ t) (e ∷ u) h k = cc
strcmp_lt-cotrans (c ∷ s) [] (e ∷ u) h k = refl
strcmp_lt-cotrans (c ∷ s) (d ∷ t) (e ∷ u) h k = ground (arith, strcmp_lt-cotrans s t u)

module _ (scores : Scores) where
  open scores use {gtb, eqb, gtb_asymm, gtb_cotrans, eqb_lem}

  pub before-asymm : (x y : Item scores) → before scores x y ≡ true → before scores y x ≡ false
  unfolding before
  before-asymm x y h = ground (
    arith,
    gtb_asymm x.score y.score,
    eqb_lem x.score y.score,
    eqb_lem y.score x.score,
    strcmp_lt-asymm x.name y.name,
  )

  pub before-cotrans :
      (x y z : Item scores)
      → before scores x z ≡ true
      → before scores x y ≡ false
      → before scores y z ≡ true
  unfolding before
  before-cotrans x y z h k = ground (
    arith,
    gtb_cotrans x.score y.score z.score,
    gtb_cotrans x.score z.score y.score,
    gtb_cotrans y.score x.score z.score,
    gtb_cotrans z.score x.score y.score,
    gtb_cotrans z.score y.score x.score,
    gtb_cotrans y.score z.score x.score,
    eqb_lem x.score y.score,
    eqb_lem x.score z.score,
    eqb_lem y.score z.score,
    strcmp_lt-cotrans x.name y.name z.name,
  )

  -- `x` may stand in front of `y`.
  abbrev pub Le : Item scores → Item scores → Type 0
  Le x y = before scores y x ≡ false

  pub Le-trans : (x y z : Item scores) → Le x y → Le y z → Le x z
  Le-trans x y z h k = elim (Bool-cases (before scores z x)) [
    | inr unordered ↦ unordered
    | inl ordered ↦ cc (before-cotrans z y x ordered k)
  ]

  pub before-Le : (x y : Item scores) → before scores x y ≡ true → Le x y
  before-Le x y h = before-asymm x y h

  -- What is in front of the one item is in front of each item that it precedes.
  pub All-Le :
      (x y : Item scores) (zs : List (Item scores)) → Le x y → All (Le y) zs → All (Le x) zs
  All-Le x y [] h k = tt
  All-Le x y (z ∷ zs) h k = (Le-trans x y z h k.0, All-Le x y zs h k.1)

  -- Two values of which neither is greater.
  abbrev pub Same : scores.Score → scores.Score → Type 0
  Same a b = (gtb a b ≡ false) × (gtb b a ≡ false)
