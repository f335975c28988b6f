-- ===== src/Movies/Processes.antt =====
-- HW4/server.c under PROCESS: the memory that the processes share, with the names in buffers behind
-- pointers, and the processes that `mergesort` forks, each of which takes its steps when it may.
pub mod Memory
pub mod Buffers
pub mod Leaf
pub mod Steps
pub mod Runs
pub mod Progress
pub mod Fill
pub mod Answer
mod Tests
use system_programming_hw.Common.{
  ℕ, zero, suc, ◌+◌, ◌-◌, ◌/◌, ◌≤◌, ◌<◌, ◌≡◌, ◌≢◌, true, false, List, [], ◌∷◌, ◌++◌, map, Option,
  none, some, take, drop, if◌then◌else◌, update, ◌>>=◌,
}
use system_programming_hw.Movies.Score.{Scores, Item, before}
use system_programming_hw.Movies.Select.{sort}
use system_programming_hw.Movies.Merge.{slice}
use system_programming_hw.Movies.Request.{MovieProfile, Request, is_match, cross, print_names}

module _ (scores : Scores) where
  -- An entry of the parallel arrays `movie_name` and `score` of `Range`.
  pub record Cell : Type 0 where
    pub pointer : ℕ
    pub score : scores.Score

  -- The `Range` in shared memory, and the buffers that its pointers lead to.
  pub record Shared : Type 0 where
    pub cells : List Cell
    pub text : ℕ → List ℕ

  -- What a cell stands for.
  abbrev pub load : (ℕ → List ℕ) → Cell → Item scores
  load text c = record { name = text c.pointer; score = c.score }

  -- The three `while` loops of `merge`, which move pointers. A tie goes to the right.
  unfoldable pub merge_cells : (ℕ → List ℕ) → List Cell → List Cell → List Cell
  merge_cells text [] ys = ys
  merge_cells text (x ∷ xs) [] = x ∷ xs
  merge_cells text (x ∷ xs) (y ∷ ys) = elim (before scores (load text x) (load text y)) [
    | true ↦ x ∷ merge_cells text xs (y ∷ ys)
    | false ↦ y ∷ merge_cells text (x ∷ xs) ys
  ]

  -- `merge` of the halves of a range, copied back over the range.
  unfoldable pub merge : ℕ → ℕ → Shared → Shared
  unfolding merge_cells
  merge l stop s =
      let mid = (l + stop - 1) / 2 in
      let merged = merge_cells s.text (slice l (mid + 1) s.cells) (slice (mid + 1) stop s.cells) in
      record s { cells = take l s.cells ++ (merged ++ drop stop s.cells) }

  -- The last loop of a leaf: each score into its cell, and each name into the buffer of its cell.
  unfoldable pub copy_back :
      List Cell → List (Item scores) → (ℕ → List ℕ) → List Cell × (ℕ → List ℕ)
  copy_back (c ∷ cs) (x ∷ xs) text =
      let (ds, text') = copy_back cs xs (update text c.pointer x.name) in
      (record c { score = x.score } ∷ ds, text')
  copy_back cs _ text = (cs, text)

  -- A leaf of `mergesort`: a copy of the range is sorted, and written back.
  unfoldable pub sort_leaf : ℕ → ℕ → ℕ → Shared → Option Shared
  unfolding copy_back
  sort_leaf num_of_movies l stop s = do
    ys ← sort scores num_of_movies (map (load s.text) (slice l stop s.cells))
    let (cs, text') = copy_back (slice l stop s.cells) ys s.text
    some (record { cells = take l s.cells ++ (cs ++ drop stop s.cells); text = text' })

  -- The loop of `deal_request` over the movies: a buffer of its own for each title that matches,
  -- with the addresses counted as `mylloc` gives them.
  unfoldable pub fill :
      Request scores
      → List (MovieProfile scores)
      → (len : ℕ) → (ℕ → List ℕ)
      → List Cell × (ℕ → List ℕ)
  unfolding is_match cross
  fill r [] len text = ([], text)
  fill r (m ∷ movies) len text =
      let found = fill r movies (len + 1) (update text len m.title) in
      let rest = fill r movies len text in
      let score = cross scores m.profile r.profile in
      if is_match scores r m
      then (record { pointer = len; score = score } ∷ found.0, found.1)
      else rest

  -- The memory with which `deal_request` calls `mergesort`.
  unfoldable pub filled : Request scores → List (MovieProfile scores) → Shared
  unfolding fill
  filled r movies = let (cs, text) = fill r movies 0 (λ p. []) in record { cells = cs; text = text }

  -- The items that the cells stand for.
  abbrev pub items : Shared → List (Item scores)
  items s = map (load s.text) s.cells

  -- The lines of the output file.
  abbrev pub print_cells : Shared → List ℕ
  print_cells s = print_names scores (items s)

-- A call of `mergesort` on a range, as far as it has come: not begun; after the `fork`, with the
-- child at work on the left half and the process itself on the right one; or returned.
pub data Task : Type 0 where
  begun : (level l stop : ℕ) → Task
  forked : (l stop : ℕ) → Task → Task → Task
  finished : Task

-- The steps of the processes in a memory `M`, with what a leaf and `merge` do to it. After a `fork`
-- either of the two may go on. An assertion that fails is no step.
module _ {M : Type 0} (leaf : ℕ → ℕ → M → Option M) (join : ℕ → ℕ → M → M) where
  pub data Step : Task → M → Task → M → Type 0 where
    return : {level l stop : ℕ} {s : M} → stop ≤ l → Step (begun level l stop) s finished s
    sort_range :
        {level l stop : ℕ} {s t : M}
        → l < stop
        → level ≡ 4
        → leaf l stop s ≡ some t
        → Step (begun level l stop) s finished t
    fork :
        {level l stop : ℕ} {s : M}
        → l < stop
        → level ≢ 4
        → Step
            (begun level l stop)
            s
            (forked l stop
              (begun (level + 1) l ((l + stop - 1) / 2 + 1))
              (begun (level + 1) ((l + stop - 1) / 2 + 1) stop))
            s
    child :
        {l stop : ℕ} {a b a' : Task} {s t : M}
        → Step a s a' t
        → Step (forked l stop a b) s (forked l stop a' b) t
    parent :
        {l stop : ℕ} {a b b' : Task} {s t : M}
        → Step b s b' t
        → Step (forked l stop a b) s (forked l stop a b') t
    waitpid :
        {l stop : ℕ} {s : M} → Step (forked l stop finished finished) s finished (join l stop s)

  -- A run of `n` steps, in any order that the steps allow.
  pub data Run (a : Task) (s : M) : ℕ → Task → M → Type 0 where
    start : Run a s zero a s
    later : {n : ℕ} {b c : Task} {t u : M} → Run a s n b t → Step b t c u → Run a s (suc n) c u
