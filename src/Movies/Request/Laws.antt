-- ===== src/Movies/Request/Laws.antt =====
-- What the two servers write for a request.
use mathlib.Core.List.{Perm, append-nil}
use native.Mathlib.Nat.{pow-suc}
use system_programming_hw.Common.{
  ℕ, zero, suc, ◌+◌, ◌*◌, ◌/◌, ◌^◌, ◌≤◌, ◌<◌, ◌≡◌, refl, Bool, false, List, [], ◌∷◌, ◌++◌, Option,
  some, length, map, All, arith, Bool-cases, inl, inr, ◌>>=◌,
}
use system_programming_hw.Movies.Score.{Scores, Item}
use system_programming_hw.Movies.Select.{sealed}
use system_programming_hw.Movies.Select.Laws.{NonNeg}
use system_programming_hw.Movies.Select.Sorts.{IsSorted}
use system_programming_hw.Movies.Merge.{mergesort, thread_leaf, process_leaf}
use system_programming_hw.Movies.Merge.Laws.{IsPlainName}
use system_programming_hw.Movies.Merge.Ranges.{IsFit, SortsRange}
use system_programming_hw.Movies.Merge.Sorts.{mergesort-SortsRange}
use system_programming_hw.Movies.Request.{
  MovieProfile, Request, cross, is_match, collect, print_names, deal_request, deal_request_thread,
  deal_request_process,
}

-- Enough fuel for the ranges of the threads.
abbrev pub FitsThread : ℕ → ℕ → ℕ → Type 0
FitsThread fuel level size = (0 < fuel) × (size ≤ 512 * 2 ^ fuel)

pub halve_thread :
    (fuel level size half : ℕ)
    → FitsThread (suc fuel) level size
    → thread_leaf level size ≡ false
    → 0 < size
    → half ≤ (size + 1) / 2
    → FitsThread fuel (suc level) half
halve_thread zero level size half h large pos k = absurd (ground arith)
halve_thread (suc fuel) level size half h large pos k =
    (omega arith, omega (arith, pow-suc 2 (suc fuel), h.1))

-- Enough fuel for the levels of the processes.
abbrev pub FitsProcess : ℕ → ℕ → ℕ → Type 0
FitsProcess fuel level size = (0 < fuel) × (fuel + level ≡ 5)

pub halve_process :
    (fuel level size half : ℕ)
    → FitsProcess (suc fuel) level size
    → process_leaf level size ≡ false
    → 0 < size
    → half ≤ (size + 1) / 2
    → FitsProcess fuel (suc level) half
halve_process fuel level size half h inner pos k = ground arith

module _ (scores : Scores) where
  -- A movie whose title can be sealed, with a score that is not negative.
  abbrev pub IsFitFor : Request scores → MovieProfile scores → Type 0
  IsFitFor r m =
      NonNeg scores (record { name = m.title; score = cross scores m.profile r.profile })
      × (length m.title < 255)
      × IsPlainName m.title

  pub collect-IsFit :
      (r : Request scores) (movies : List (MovieProfile scores))
      → All (IsFitFor r) movies
      → All (IsFit scores) (collect scores r movies)
  unfolding collect
  collect-IsFit r [] h = tt
  collect-IsFit r (m ∷ movies) h = elim (Bool-cases (is_match scores r m)) [
    | inl found ↦ rw found (h.0, collect-IsFit r movies h.1)
    | inr other ↦ rw other (collect-IsFit r movies h.1)
  ]

  pub length-collect :
      (r : Request scores) (movies : List (MovieProfile scores))
      → length (collect scores r movies) ≤ length movies
  unfolding collect
  length-collect r [] = omega arith
  length-collect r (m ∷ movies) = ground (arith, length-collect r movies)

  -- The output is the names, sealed, of the matching movies, in the order of the results.
  pub record Answers (r : Request scores) (movies : List (MovieProfile scores))
      (out : Option (List ℕ)) : Type 0 where
    pub order : List (Item scores)
    pub printed : out ≡ some (print_names scores (map (sealed scores) order))
    pub perm : Perm order (collect scores r movies)
    pub is_sorted : IsSorted scores order

  deal_request_lem :
      (leaf : ℕ → ℕ → Bool) (fuel : ℕ) (movies : List (MovieProfile scores)) (r : Request scores)
      → deal_request scores leaf fuel movies r ≡ (
          mergesort scores leaf
            (length movies)
            fuel
            0
            0
            (length (collect scores r movies))
            (collect scores r movies)
          >>= λ sorted. some (print_names scores sorted))
  unfolding deal_request
  deal_request_lem leaf fuel movies r = refl

  SortsRange-Answers :
      (leaf : ℕ → ℕ → Bool) (fuel : ℕ) (movies : List (MovieProfile scores)) (r : Request scores)
      → SortsRange scores [] (collect scores r movies) [] (
          mergesort scores leaf
            (length movies)
            fuel
            0
            0
            (length (collect scores r movies))
            ([] ++ (collect scores r movies ++ [])))
      → Answers r movies (deal_request scores leaf fuel movies r)
  SortsRange-Answers leaf fuel movies r whole = record {
    order = whole.order;
    printed = rw (
      deal_request_lem leaf fuel movies r,
      rw (append-nil (collect scores r movies), append-nil (map (sealed scores) whole.order)) at
          whole.returned,
    );
    perm = whole.perm;
    is_sorted = whole.is_sorted;
  }

  -- The server of threads: for at most 70,000 movies whose titles are shorter than 255 bytes, all
  -- above the tab, and whose scores for the request are not negative, it writes the sealed titles of
  -- exactly the movies that match the request, sorted by score and then by title.
  pub deal_request_thread-Answers :
      (movies : List (MovieProfile scores)) (r : Request scores)
      → length movies ≤ 70000
      → All (IsFitFor r) movies
      → Answers r movies (deal_request_thread scores movies r)
  deal_request_thread-Answers movies r few fit = SortsRange-Answers thread_leaf 8 movies r (
      mergesort-SortsRange scores thread_leaf (length movies) FitsThread
        (λ level size h. omega arith) halve_thread 8 0 [] (collect scores r movies) [] 0 _ refl
        (omega arith) (omega (arith, length-collect r movies)) (length-collect r movies)
        (collect-IsFit r movies fit))

  -- The levels of the processes end the recursion whatever the number of movies.
  pub deal_request_process_sorts :
      (movies : List (MovieProfile scores)) (r : Request scores)
      → All (IsFitFor r) movies
      → Answers r movies (deal_request_process scores movies r)
  deal_request_process_sorts movies r fit = SortsRange-Answers process_leaf 5 movies r (
      mergesort-SortsRange scores process_leaf (length movies) FitsProcess
        (λ level size h. omega arith) halve_process 5 0 [] (collect scores r movies) [] 0 _ refl
        (omega arith) (omega arith) (length-collect r movies) (collect-IsFit r movies fit))

  -- The server of processes: for at most 70,000 movies whose titles are shorter than 255 bytes, all
  -- above the tab, and whose scores for the request are not negative, the matches fit in the arrays
  -- of 70,000 entries, and it writes the sealed titles of exactly the movies that match the request,
  -- sorted by score and then by title.
  pub deal_request_process-Answers :
      (movies : List (MovieProfile scores)) (r : Request scores)
      → length movies ≤ 70000
      → All (IsFitFor r) movies
      → (length (collect scores r movies) ≤ 70000)
        × Answers r movies (deal_request_process scores movies r)
  deal_request_process-Answers movies r few fit =
      (omega (arith, length-collect r movies), deal_request_process_sorts movies r fit)
