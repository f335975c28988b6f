-- ===== src/Movies/Tests.antt =====
-- Runs of the two servers of HW4, and the theorems at concrete inputs. A score is a number with the
-- zero at 1, so that there is a value below it.
use system_programming_hw.Common.{
  length, ◌≤◌, ℕ, ◌+◌, ◌-◌, ◌*◌, ◌≡◌, refl, true, false, not, ◌&&◌, List, [], ◌∷◌, ◌++◌, some,
  arith, ltb, ◌==◌, All,
}
use system_programming_hw.Common.Int.{pos}
use system_programming_hw.Text.{same_text, codes, strcmp_lt, contains}
use system_programming_hw.Movies.Score.{Scores, Item, before}
use system_programming_hw.Movies.Select.{sort}
use system_programming_hw.Movies.Merge.{mergesort, process_leaf}
use system_programming_hw.Movies.Merge.Ranges.{SortsRange}
use system_programming_hw.Movies.Merge.Sorts.{mergesort-SortsRange}
use system_programming_hw.Movies.Request.{
  collect, MovieProfile, Request, deal_request_thread, deal_request_process, deal_request, cross,
}
use system_programming_hw.Movies.Request.Builds.{deal_request_thread-deal_request_process}
use system_programming_hw.Movies.Request.Laws.{
  Answers, IsFitFor, deal_request_thread-Answers, deal_request_process-Answers, FitsProcess,
  halve_process,
}

pub asymm : (a b : ℕ) → ltb b a ≡ true → ltb a b ≡ false
asymm a b h = ground arith

pub cotrans : (a b c : ℕ) → ltb c a ≡ true → ltb b a ≡ false → ltb c b ≡ true
cotrans a b c h k = ground arith

pub equal_iff : (a b : ℕ) → (a == b) ≡ (not (ltb b a) && not (ltb a b))
equal_iff a b = ground arith

abbrev pub points : Scores
points = record {
  Score = ℕ;
  zero = 1;
  minus_one = 0;
  plus = λ a b. a + b - 1;
  times = λ a b. (a - 1) * (b - 1) + 1;
  gtb = λ a b. ltb b a;
  eqb = λ a b. a == b;
  gtb_asymm = asymm;
  gtb_cotrans = cotrans;
  eqb_lem = equal_iff;
  minus_one_below = refl;
}

abbrev movies : List (MovieProfile points)
movies =
    record { movie_id = pos 9; title = codes "Toy Story"; profile = 3 ∷ 2 ∷ [] }
    ∷ (record { movie_id = pos 9; title = codes "Heat"; profile = 9 ∷ 9 ∷ [] }
        ∷ (record { movie_id = pos 9; title = codes "Small Toy"; profile = 4 ∷ 4 ∷ [] }
            ∷ (record { movie_id = pos 9; title = codes "Old Toy"; profile = 4 ∷ 4 ∷ [] } ∷ [])))

abbrev toys : Request points
toys = record { id = pos 7; keywords = codes "Toy"; profile = 2 ∷ 2 ∷ [] }

abbrev expected : List ℕ
expected =
    codes
      "Old Toy\t[It's top secret.]\nSmall Toy\t[It's top secret.]\nToy Story\t[It's top secret.]\n"

thread_runs : deal_request_thread points movies toys ≡ some expected
unfolding deal_request contains sort before strcmp_lt same_text
thread_runs = refl

process_runs : deal_request_process points movies toys ≡ some expected
unfolding deal_request contains sort before strcmp_lt same_text
process_runs = refl

movies_fit : All (IsFitFor points toys) movies
unfolding cross
movies_fit = ground arith

deal_request_thread-Answers_example :
    Answers points toys movies (deal_request_thread points movies toys)
deal_request_thread-Answers_example =
    deal_request_thread-Answers points movies toys (omega arith) movies_fit

deal_request_process-Answers_example :
    (length (collect points toys movies) ≤ 70000)
    × Answers points toys movies (deal_request_process points movies toys)
deal_request_process-Answers_example =
    deal_request_process-Answers points movies toys (omega arith) movies_fit

deal_request_thread-deal_request_process_example :
    deal_request_thread points movies toys ≡ deal_request_process points movies toys
deal_request_thread-deal_request_process_example =
    deal_request_thread-deal_request_process points movies toys (omega arith) movies_fit

abbrev item : List ℕ → ℕ → Item points
item name score = record { name = name; score = score }

abbrev range : List (Item points)
range = item (codes "b") 3 ∷ (item (codes "a") 3 ∷ (item (codes "c") 9 ∷ []))

mergesort-SortsRange_example :
    SortsRange points (item (codes "x") 1 ∷ []) range (item (codes "y") 2 ∷ []) (
      mergesort points process_leaf 5 5 0 1 4
        ((item (codes "x") 1 ∷ []) ++ (range ++ (item (codes "y") 2 ∷ []))))
mergesort-SortsRange_example =
    mergesort-SortsRange points process_leaf 5 FitsProcess (λ level size h. omega arith)
      halve_process 5 0 (item (codes "x") 1 ∷ []) range (item (codes "y") 2 ∷ []) 1 4 (omega arith)
      (omega arith) (omega arith) (omega arith) (ground arith)
