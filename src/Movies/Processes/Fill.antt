-- ===== src/Movies/Processes/Fill.antt =====
-- The memory that `deal_request` fills: the items of the matching movies, each in a buffer of its
-- own.
use system_programming_hw.Common.{
  ℕ, ◌+◌, ◌≤◌, ◌<◌, ◌≡◌, refl, ◌∙◌, List, [], ◌∷◌, map, update, arith, Bool-cases, inl, inr,
}
use system_programming_hw.Movies.Score.{Scores}
use system_programming_hw.Movies.Request.{MovieProfile, Request, is_match, collect}
use system_programming_hw.Movies.Processes.{load, fill, filled, items}
use system_programming_hw.Movies.Processes.Memory.{occurs, IsDistinct}

module _ (scores : Scores) (r : Request scores) where
  -- A buffer that has been filled stays as it is.
  fill-below :
      (movies : List (MovieProfile scores)) (len : ℕ) (text : ℕ → List ℕ) (p : ℕ)
      → p < len
      → (fill scores r movies len text).1 p ≡ text p
  unfolding fill
  fill-below [] len text p h = refl
  fill-below (m ∷ movies) len text p h = elim (Bool-cases (is_match scores r m)) [
    | inl found ↦
        rw (found, fill)
          (fill-below movies (len + 1) (update text len m.title) p (omega arith) ∙ ground arith)
    | inr other ↦ rw (other, fill) (fill-below movies len text p h)
  ]

  fill-items :
      (movies : List (MovieProfile scores)) (len : ℕ) (text : ℕ → List ℕ)
      → map (load scores (fill scores r movies len text).1) (fill scores r movies len text).0
        ≡ collect scores r movies
  unfolding fill collect
  fill-items [] len text = refl
  fill-items (m ∷ movies) len text = elim (Bool-cases (is_match scores r m)) [
    | inl found ↦
        let text' = update text len m.title in
        let title : (fill scores r movies (len + 1) text').1 len ≡ m.title =
          fill-below movies (len + 1) text' len (omega arith) ∙ ground arith in
        rw (found, fill, collect, title, fill-items movies (len + 1) text') refl
    | inr other ↦ rw (other, fill, collect) (fill-items movies len text)
  ]

  fill-occurs :
      (movies : List (MovieProfile scores)) (len : ℕ) (text : ℕ → List ℕ) (p : ℕ)
      → (occurs scores p (fill scores r movies len text).0 ≤ 1)
        × (p < len → occurs scores p (fill scores r movies len text).0 ≡ 0)
  unfolding fill occurs
  fill-occurs [] len text p = (omega arith, λ h. refl)
  fill-occurs (m ∷ movies) len text p = elim (Bool-cases (is_match scores r m)) [
    | inl found ↦
        let (few, fresh) = fill-occurs movies (len + 1) (update text len m.title) p in
        rw (found, fill) (ground (arith, fresh), λ h. ground (arith, fresh))
    | inr other ↦ rw (other, fill) (fill-occurs movies len text p)
  ]

  -- The memory stands for the items that match.
  pub items-filled :
      (movies : List (MovieProfile scores))
      → items scores (filled scores r movies) ≡ collect scores r movies
  unfolding filled
  items-filled movies = fill-items movies 0 (λ p. [])

  pub filled-IsDistinct :
      (movies : List (MovieProfile scores)) → IsDistinct scores (filled scores r movies).cells
  unfolding filled
  filled-IsDistinct movies p = (fill-occurs movies 0 (λ q. []) p).0
