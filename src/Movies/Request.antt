-- ===== src/Movies/Request.antt =====
-- HW4/server.c: `cross` and `deal_request`, of the threads and of the processes.
pub mod Laws
pub mod Unique
pub mod Builds
use system_programming_hw.Common.{
  ℕ, zero, suc, Bool, true, false, ◌&&◌, ◌||◌, List, [], ◌∷◌, ◌++◌, Option, none, some, ◌==◌,
  length, if◌then◌else◌, ◌>>=◌,
}
use system_programming_hw.Common.Int.{ℤ}
use system_programming_hw.Text.{contains, same_text}
use system_programming_hw.Movies.Score.{Scores, Item}
use system_programming_hw.Movies.Merge.{mergesort, thread_leaf, process_leaf}

module _ (scores : Scores) where
  open scores use {Score, plus, times}

  pub record MovieProfile : Type 0 where
    pub movie_id : ℤ
    pub title : List ℕ
    pub profile : List Score

  pub record Request : Type 0 where
    pub id : ℤ
    pub keywords : List ℕ
    pub profile : List Score

  -- The `for` of `cross`, over the entries of the two profiles.
  unfoldable pub cross_loop : Score → List Score → List Score → Score
  cross_loop sum (p ∷ ps) (q ∷ qs) = cross_loop (plus sum (times p q)) ps qs
  cross_loop sum _ _ = sum

  unfoldable pub cross : List Score → List Score → Score
  unfolding cross_loop
  cross p1 p2 = cross_loop scores.zero p1 p2

  -- `!strcmp(keywords, "*") || strstr(title, keywords)`.
  unfoldable pub is_match : Request → MovieProfile → Bool
  is_match r m = same_text r.keywords (42 ∷ []) || contains r.keywords m.title

  -- The `for` over the movies.
  unfoldable pub collect : Request → List MovieProfile → List (Item scores)
  unfolding is_match cross
  collect r [] = []
  collect r (m ∷ movies) =
      let rest = collect r movies in
      if is_match r m
      then record { name = m.title; score = cross m.profile r.profile } ∷ rest
      else rest

  -- A line of the result for each item.
  unfoldable pub print_names : List (Item scores) → List ℕ
  print_names [] = []
  print_names (x ∷ xs) = x.name ++ (10 ∷ print_names xs)

  -- `deal_request`: the text of the output file. The arrays of `Range` have an entry for each movie that
  -- can be loaded, 70,000 at most.
  unfoldable pub deal_request :
      (leaf : ℕ → ℕ → Bool) (fuel : ℕ) → List MovieProfile → Request → Option (List ℕ)
  unfolding collect mergesort print_names
  deal_request leaf fuel movies r =
      let found = collect r movies in
      mergesort scores leaf (length movies) fuel 0 0 (length found) found >>= λ sorted.
      some (print_names sorted)

  -- The server of threads: the ranges of 70,000 movies are below the size limit on level 7.
  abbrev pub deal_request_thread : List MovieProfile → Request → Option (List ℕ)
  deal_request_thread = deal_request thread_leaf 8

  -- The server of processes: level 4 is the last.
  abbrev pub deal_request_process : List MovieProfile → Request → Option (List ℕ)
  deal_request_process = deal_request process_leaf 5
