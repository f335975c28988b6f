-- ===== src/Movies/Server/Tests.antt =====
-- Runs of the two servers of HW4 from their inputs on, and the theorems at concrete inputs.
use mathlib.Core.List.{Mem, mem-cons, not-mem-nil, Nodup, Nodup-cons, Nodup-nil}
use mathlib.Core.Logic.Or
use mathlib.Core.HLevel.{⊥_prop}
use system_programming_hw.Common.{
  ℕ, suc, ◌≡◌, refl, ap, List, [], ◌∷◌, ◌++◌, none, some, map, take, All, Every, arith,
}
use system_programming_hw.Common.Int.{pos, pos_part}
use system_programming_hw.Text.{codes, atoi, contains, same_text, strcmp_lt}
use system_programming_hw.Movies.Score.{before}
use system_programming_hw.Movies.Select.{sort}
use system_programming_hw.Movies.Request.{MovieProfile, Request, deal_request, cross}
use system_programming_hw.Movies.Request.Laws.{Answers}
use system_programming_hw.Movies.Tests.{points}
use system_programming_hw.Movies.Input.{Reals, initialize, read_movie, normalize}
use system_programming_hw.Movies.Input.Bounds.{IsLoaded, initialize-IsLoaded}
use system_programming_hw.Movies.Input.Lines.{movie_line, squares, read_movie-movie_line}
use system_programming_hw.Movies.Server.{
  thread_file, serve, main_thread, main_process, process_file,
}
use system_programming_hw.Movies.Server.Serves.{
  Served, Suits, main_thread-Served, main_process-Answers,
}

-- Scores are numbers with the zero at 1; the root and the quotient are not computed.
abbrev whole : Reals points
unfolding atoi
whole = record { strtod = λ t. suc (pos_part (atoi t)); sqrt = λ x. x; divide = λ x y. x }

abbrev ones : List (List ℕ)
ones =
    codes "1"
    ∷ codes "1"
    ∷ codes "1"
    ∷ codes "1"
    ∷ codes "1"
    ∷ codes "1"
    ∷ codes "1"
    ∷ codes "1"
    ∷ codes "1"
    ∷ codes "1"
    ∷ codes "1"
    ∷ codes "1"
    ∷ codes "1"
    ∷ codes "1"
    ∷ codes "1"
    ∷ codes "1"
    ∷ codes "1"
    ∷ codes "1"
    ∷ codes "1}\n"
    ∷ []

read_movie-movie_line_example :
    read_movie points whole (movie_line (codes "12") (codes "Toy Story (1995)") ones)
    ≡ some (record {
      movie_id = atoi (codes "12");
      title = codes "Toy Story (1995)";
      profile =
          normalize points whole
            (map whole.strtod ones)
            (squares points whole 1 (map whole.strtod ones));
    })
read_movie-movie_line_example =
    read_movie-movie_line points whole (codes "12") (codes "Toy Story (1995)") ones (ground arith)
      (ground arith) (ground arith) refl (ground arith) (ground arith) (ground arith) (omega arith)

abbrev file : List ℕ
file =
    codes
      "id title genres\n12 Heat (1995) {1,0,0,1,0,0,0,0,0,0,0,0,0,0,0,0,0,0,0}\n7 Toy Story {1,0,0,0,0,0,0,0,0,0,0,0,0,0,0,0,0,0,0}\n"

abbrev input : List ℕ
input =
    codes
      "2\n5 Toy 1,0,0,0,0,0,0,0,0,0,0,0,0,0,0,0,0,0,0\n6 * 0,0,0,1,0,0,0,0,0,0,0,0,0,0,0,0,0,0,0\n"

abbrev profile : ℕ → ℕ → List ℕ
profile a b = a ∷ 1 ∷ 1 ∷ b ∷ 1 ∷ 1 ∷ 1 ∷ 1 ∷ 1 ∷ 1 ∷ 1 ∷ 1 ∷ 1 ∷ 1 ∷ 1 ∷ 1 ∷ 1 ∷ 1 ∷ 1 ∷ []

abbrev movies : List (MovieProfile points)
movies =
    record { movie_id = pos 12; title = codes "Heat (1995)"; profile = profile 2 2 }
    ∷ record { movie_id = pos 7; title = codes "Toy Story"; profile = profile 2 1 }
    ∷ []

abbrev reqs : List (Request points)
reqs =
    record { id = pos 5; keywords = codes "Toy"; profile = profile 2 1 }
    ∷ record { id = pos 6; keywords = codes "*"; profile = profile 1 2 }
    ∷ []

loads : initialize points whole file input ≡ some (movies, reqs)
unfolding initialize
loads = refl

thread_runs_all :
    main_thread points whole 1 (some file) input
    ≡ some (
        (codes "5t.out", codes "Toy Story\t[It's top secret.]\n")
        ∷ (codes "6t.out", codes "Heat (1995)\t[It's top secret.]\nToy Story\t[It's top secret.]\n")
        ∷ [])
unfolding main_thread deal_request contains sort before strcmp_lt same_text thread_file
thread_runs_all = refl

initialize-IsLoaded_example : Every (IsLoaded points whole) (initialize points whole file input)
initialize-IsLoaded_example = initialize-IsLoaded points whole file input

suit : All (λ r. All (Suits points whole r) movies) reqs
unfolding cross
suit = ground arith

two_ids : Nodup (map (λ (r : Request points). r.id) reqs)
two_ids = Nodup-cons.1 (not_six, Nodup-cons.1 (not-mem-nil, Nodup-nil))
  where
    not_six : ¬ Mem (pos 5) (pos 6 ∷ [])
    not_six m =
        Or.elim ⊥_prop (mem-cons.0 m) (λ e. omega (arith, ap pos_part e)) (λ n. not-mem-nil n)

-- Two requests with one id, whose threads write one file at once.
same_file : serve points whole movies (take 1 reqs ++ reqs) ≡ none
unfolding serve
same_file = refl

main_thread-Served_example :
    (outs : List (List ℕ × List ℕ)) × (main_thread points whole 1 (some file) input ≡ some outs)
    × Served points whole movies reqs outs
main_thread-Served_example = main_thread-Served points whole file input loads two_ids suit

main_process-Answers_example :
    (text : List ℕ) × (main_process points whole 1 (some file) input
      ≡ some (process_file (pos 5), text))
    × Answers points
        (record { id = pos 5; keywords = codes "Toy"; profile = profile 2 1 })
        movies
        (some text)
main_process-Answers_example = main_process-Answers points whole file input loads suit.0
