-- ===== src/Movies/Score.antt =====
-- The scores of HW4 (`double`), a movie with its score, and the order of the results.
pub mod Order
use system_programming_hw.Common.{Bool, true, false, not, ◌&&◌, ◌||◌, ◌≡◌, ℕ, List}
use system_programming_hw.Text.{strcmp_lt}

-- The operations on `double` that the programs use, and what they rely on for values that are no
-- NaN: `>` is a strict weak order, and `==` holds where neither value is greater.
pub record Scores : Type 1 where
  pub Score : Type 0
  pub zero : Score
  pub minus_one : Score
  pub plus : Score → Score → Score
  pub times : Score → Score → Score
  pub gtb : Score → Score → Bool
  pub eqb : Score → Score → Bool
  pub gtb_asymm : (a b : Score) → gtb a b ≡ true → gtb b a ≡ false
  pub gtb_cotrans : (a b c : Score) → gtb a c ≡ true → gtb a b ≡ false → gtb b c ≡ true
  pub eqb_lem : (a b : Score) → eqb a b ≡ (not (gtb a b) && not (gtb b a))
  pub minus_one_below : gtb zero minus_one ≡ true

module _ (scores : Scores) where
  open scores use {Score, gtb, eqb}

  -- An entry of the parallel arrays `movies` and `pts` (`movie_name` and `score`), whose entries
  -- the code always moves together.
  pub record Item : Type 0 where
    pub name : List ℕ
    pub score : Score

  -- The test of `merge`: a greater score, or the same score and a smaller name.
  unfoldable pub before : Item → Item → Bool
  before x y = gtb x.score y.score || (eqb x.score y.score && strcmp_lt x.name y.name)
