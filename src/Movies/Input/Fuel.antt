-- ===== src/Movies/Input/Fuel.antt =====
-- The loop of `initialize` over the lines comes to the end of the file.
use system_programming_hw.Common.{
  ℕ, zero, suc, ◌+◌, ◌≤◌, ◌<◌, ◌≡◌, refl, List, [], ◌∷◌, length, arith,
}
use system_programming_hw.Movies.Score.{Scores}
use system_programming_hw.Movies.Input.{Reals, fgets_loop, read_movies}

rest_le : (n : ℕ) (s : List ℕ) → length (fgets_loop n s).1 ≤ length s
unfolding fgets_loop
rest_le zero s = omega arith
rest_le (suc n) [] = omega arith
rest_le (suc n) (c ∷ s) = ground (arith, rest_le n s)

-- A line takes a byte at least.
rest_lt : (n c : ℕ) (s : List ℕ) → length (fgets_loop (suc n) (c ∷ s)).1 < length (c ∷ s)
unfolding fgets_loop
rest_lt n c s = ground (arith, rest_le n s)

fewer : (a b fuel : ℕ) → a < b → b < suc fuel → a < fuel
fewer a b fuel h k = omega arith

module _ (scores : Scores) (reals : Reals scores) where
  -- With more fuel than the file has bytes, the fuel makes no difference.
  pub read_movies-enough :
      (fuel more cnt : ℕ) (file : List ℕ)
      → length file < fuel
      → length file < more
      → read_movies scores reals fuel cnt file ≡ read_movies scores reals more cnt file
  unfolding read_movies
  read_movies-enough zero more cnt file h k = absurd (omega arith)
  read_movies-enough (suc fuel) zero cnt file h k = absurd (omega arith)
  read_movies-enough (suc fuel) (suc more) cnt [] h k = refl
  read_movies-enough (suc fuel) (suc more) cnt (c ∷ s) h k =
      let rest = (fgets_loop 254 (c ∷ s)).1 in
      let shorter = rest_lt 253 c s in
      rw
        (read_movies-enough fuel more (cnt + 1) rest (fewer _ _ fuel shorter h)
          (fewer _ _ more shorter k))
        refl
