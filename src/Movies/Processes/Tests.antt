-- ===== src/Movies/Processes/Tests.antt =====
-- A run of the processes of HW4/server.c on one movie that matches.
use system_programming_hw.Common.{
  ℕ, ◌≤◌, ◌<◌, ◌≡◌, ◌≢◌, refl, List, [], ◌∷◌, Option, none, some, arith, All,
}
use system_programming_hw.Common.Int.{pos}
use system_programming_hw.Text.{codes, contains, same_text}
use system_programming_hw.Movies.Select.{sort}
use system_programming_hw.Movies.Request.{MovieProfile, Request, cross, print_names}
use system_programming_hw.Movies.Request.Laws.{IsFitFor}
use system_programming_hw.Movies.Tests.{points}
use system_programming_hw.Movies.Processes.{
  Shared, sort_leaf, merge, filled, print_cells, finished, Step, start, later,
}
use system_programming_hw.Movies.Processes.Answer.{Processes, Outcome, Processes-Outcome}

abbrev movies : List (MovieProfile points)
movies =
    record { movie_id = pos 9; title = codes "Heat"; profile = 9 ∷ 9 ∷ [] }
    ∷ (record { movie_id = pos 8; title = codes "Old Toy"; profile = 4 ∷ 4 ∷ [] } ∷ [])

abbrev toys : Request points
toys = record { id = pos 7; keywords = codes "Toy"; profile = 2 ∷ 2 ∷ [] }

movies_fit : All (IsFitFor points toys) movies
unfolding cross
movies_fit = ground arith

abbrev first : Shared points
first = filled points toys movies

abbrev or_first : Option (Shared points) → Shared points
or_first none = first
or_first (some s) = s

abbrev sorted : Shared points
sorted = or_first (sort_leaf points 2 0 1 first)

abbrev last : Shared points
last = merge points 0 1 (merge points 0 1 (merge points 0 1 (merge points 0 1 sorted)))

last_text : print_cells points last ≡ codes "Old Toy\t[It's top secret.]\n"
unfolding filled sort_leaf merge contains same_text sort print_names
last_text = refl

-- The children go first as far as they can, then the processes that started them.
all_steps : Processes points toys movies 13 finished last
unfolding filled sort_leaf sort contains same_text
all_steps =
    let one : 0 < 1 = omega arith in
    let empty : 1 ≤ 1 = omega arith in
    let inner : (n : ℕ) → n < 4 → n ≢ 4 = λ n h. omega arith in
    let in_0 = inner 0 (omega arith) in
    let in_1 = inner 1 (omega arith) in
    let in_2 = inner 2 (omega arith) in
    let in_3 = inner 3 (omega arith) in
    let r₁ = later start (Step.fork one in_0) in
    let r₂ = later r₁ (Step.child (Step.fork one in_1)) in
    let r₃ = later r₂ (Step.child (Step.child (Step.fork one in_2))) in
    let r₄ = later r₃ (Step.child (Step.child (Step.child (Step.fork one in_3)))) in
    let r₅ = later r₄ (Step.parent (Step.return empty)) in
    let r₆ = later r₅ (Step.child (Step.parent (Step.return empty))) in
    let r₇ = later r₆ (Step.child (Step.child (Step.parent (Step.return empty)))) in
    let r₈ = later r₇ (Step.child (Step.child (Step.child (Step.parent (Step.return empty))))) in
    let r₉ =
      later r₈
        (Step.child (Step.child (Step.child (Step.child (Step.sort_range one refl refl))))) in
    later
      (later
        (later (later r₉ (Step.child (Step.child (Step.child Step.waitpid))))
          (Step.child (Step.child Step.waitpid)))
        (Step.child Step.waitpid))
      Step.waitpid

Processes-Outcome_example : Outcome points toys movies movies_fit 13 finished last
Processes-Outcome_example = Processes-Outcome points toys movies movies_fit all_steps
