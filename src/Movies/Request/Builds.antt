-- ===== src/Movies/Request/Builds.antt =====
-- The server of threads and the server of processes write the same.
use mathlib.Core.List.Perm
use system_programming_hw.Common.{
  ℕ, ◌≤◌, ◌≡◌, refl, sym, ap, ap, ◌∙◌, List, [], ◌∷◌, Option, some, length, map, All,
}
use system_programming_hw.Movies.Score.{Scores, Item}
use system_programming_hw.Movies.Select.{sealed}
use system_programming_hw.Movies.Request.{
  MovieProfile, Request, print_names, deal_request_thread, deal_request_process,
}
use system_programming_hw.Movies.Request.Laws.{
  Answers, IsFitFor, deal_request_thread-Answers, deal_request_process_sorts,
}
use system_programming_hw.Movies.Request.Unique.{SameNames, perm-SameNames}

module _ (scores : Scores) where
  print_names-SameNames :
      (xs ys : List (Item scores))
      → SameNames scores xs ys
      → print_names scores (map (sealed scores) xs) ≡ print_names scores (map (sealed scores) ys)
  unfolding print_names
  print_names-SameNames [] [] h = refl
  print_names-SameNames [] (y ∷ ys) h = absurd h
  print_names-SameNames (x ∷ xs) [] h = absurd h
  print_names-SameNames (x ∷ xs) (y ∷ ys) h = rw (h.0, print_names-SameNames xs ys h.1) refl

  -- A request has one answer.
  pub Answers-unique :
      (r : Request scores) (movies : List (MovieProfile scores)) (out more : Option (List ℕ))
      → Answers scores r movies out
      → Answers scores r movies more
      → out ≡ more
  Answers-unique r movies out more a b =
      let same =
        perm-SameNames scores a.order b.order (Perm.trans a.perm (Perm.symm b.perm)) a.is_sorted
          b.is_sorted in
      a.printed ∙ ap some (print_names-SameNames a.order b.order same) ∙ sym b.printed

  -- For at most 70,000 movies whose titles are shorter than 255 bytes, all above the tab, and whose
  -- scores for the request are not negative, both servers write the same text for the request.
  pub deal_request_thread-deal_request_process :
      (movies : List (MovieProfile scores)) (r : Request scores)
      → length movies ≤ 70000
      → All (IsFitFor scores r) movies
      → deal_request_thread scores movies r ≡ deal_request_process scores movies r
  deal_request_thread-deal_request_process movies r few fit =
      Answers-unique r movies _ _ (deal_request_thread-Answers scores movies r few fit)
        (deal_request_process_sorts scores movies r fit)
