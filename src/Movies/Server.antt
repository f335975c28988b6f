-- ===== src/Movies/Server.antt =====
-- `main` of HW4/server.c, for threads and for processes: the files that it writes, with their names.
-- `none` is an end of the program as in Movies/Input, or a file whose text depends on the order of the
-- threads.
pub mod Serves
mod Tests
use system_programming_hw.Common.{
  ℕ, zero, suc, Bool, false, ◌&&◌, ◌||◌, List, [], ◌∷◌, ◌++◌, Option, none, some, ◌==◌, length,
  take, drop, if◌then◌else◌, ◌>>=◌,
}
use system_programming_hw.Common.Int.{ℤ, pos_part, neg_part}
use system_programming_hw.Text.{codes, show_int}
use system_programming_hw.Movies.Score.{Scores}
use system_programming_hw.Movies.Request.{
  MovieProfile, Request, deal_request_thread, deal_request_process,
}
use system_programming_hw.Movies.Input.{Reals, initialize}

abbrev pub same_id : ℤ → ℤ → Bool
same_id a b = pos_part a == pos_part b && neg_part a == neg_part b

-- "%dt.out" and "%dp.out".
abbrev pub thread_file : ℤ → List ℕ
unfolding show_int
thread_file id = show_int id ++ codes "t.out"

abbrev pub process_file : ℤ → List ℕ
unfolding show_int
process_file id = show_int id ++ codes "p.out"

module _ (scores : Scores) (reals : Reals scores) where
  -- Another request of the batch has the same id, and so the same file.
  unfoldable pub shares_file : ℤ → List (Request scores) → Bool
  shares_file id [] = false
  shares_file id (q ∷ qs) = same_id id q.id || shares_file id qs

  -- The threads of a batch, each with its entry of `data` and its file. Where two of them have the
  -- same id, both open one file with "w+" and write to it at once, and what it holds in the end
  -- depends on their order: the result is `none`.
  unfoldable pub serve :
      List (MovieProfile scores) → List (Request scores) → Option (List (List ℕ × List ℕ))
  unfolding shares_file
  serve movies [] = some []
  serve movies (r ∷ rs) =
      let rest = serve movies rs in
      if shares_file r.id rs then none else (do
        text ← deal_request_thread scores movies r
        outs ← rest
        some ((thread_file r.id, text) ∷ outs))

  -- The `for` over the batches of 32 requests, of which there are no more than the fuel says.
  unfoldable pub batches :
      ℕ → List (MovieProfile scores) → List (Request scores) → Option (List (List ℕ × List ℕ))
  unfolding serve
  batches zero movies rs = none
  batches (suc fuel) movies [] = some []
  batches (suc fuel) movies (r ∷ rs) = do
    batch ← serve movies (take 32 (r ∷ rs))
    rest ← batches fuel movies (drop 32 (r ∷ rs))
    some (batch ++ rest)

  -- The server of threads: a batch serves at least one request.
  unfoldable pub main_thread :
      (argc : ℕ) (fopen : Option (List ℕ)) (input : List ℕ) → Option (List (List ℕ × List ℕ))
  unfolding initialize batches
  main_thread argc fopen input = do
    file ← if argc == 1 then fopen else none
    (movies, reqs) ← initialize scores reals file input
    batches (suc (length reqs)) movies reqs

  -- The server of processes deals with the first request only.
  abbrev pub first_request :
      List (MovieProfile scores) → List (Request scores) → Option (List ℕ × List ℕ)
  first_request movies [] = none
  first_request movies (r ∷ rs) =
      deal_request_process scores movies r >>= λ text. some (process_file r.id, text)

  unfoldable pub main_process :
      (argc : ℕ) (fopen : Option (List ℕ)) (input : List ℕ) → Option (List ℕ × List ℕ)
  unfolding initialize
  main_process argc fopen input = do
    file ← if argc == 1 then fopen else none
    (movies, reqs) ← initialize scores reals file input
    first_request movies reqs
