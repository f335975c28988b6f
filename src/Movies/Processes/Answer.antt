-- ===== src/Movies/Processes/Answer.antt =====
-- The processes that deal with a request: whatever the order of their steps, they end, and the file
-- is the one that the calls one after the other would write.
use mathlib.Core.List.{append-nil}
use system_programming_hw.Common.{
  ℕ, ◌+◌, ◌≤◌, ◌≡◌, ◌≢◌, refl, sym, ap, ◌∙◌, List, [], some, length, length-map, All, arith, inl,
  inr,
}
use system_programming_hw.Movies.Score.{Scores}
use system_programming_hw.Movies.Request.{MovieProfile, Request, collect, deal_request_process}
use system_programming_hw.Movies.Request.Laws.{
  IsFitFor, collect-IsFit, length-collect, Answers, deal_request_process_sorts,
}
use system_programming_hw.Movies.Request.Builds.{Answers-unique}
use system_programming_hw.Movies.Processes.{
  Shared, sort_leaf, merge, items, load, filled, print_cells, Task, begun, finished, Run, start,
  later,
}
use system_programming_hw.Movies.Processes.Memory.{IsDistinct}
use system_programming_hw.Movies.Processes.Fill.{items-filled, filled-IsDistinct}
use system_programming_hw.Movies.Processes.Steps.{IsProper, SharedStep, Step-items, Step-lift}
use system_programming_hw.Movies.Processes.Runs.{Doing, begins, IsDone, Doing-IsDone, Step-Next}
use system_programming_hw.Movies.Processes.Progress.{weight, weight_first, Step-weight, progress}

module _ (scores : Scores) (r : Request scores) (movies : List (MovieProfile scores)) where
  -- The runs of the processes, from the call of `mergesort` in `deal_request` on.
  abbrev pub Processes : ℕ → Task → Shared scores → Type 0
  Processes =
      Run (sort_leaf scores (length movies)) (merge scores)
        (begun 0 0 (length (filled scores r movies).cells)) (filled scores r movies)

  record Inv (n : ℕ) (a : Task) (s : Shared scores) : Type 0 where
    pub proper : IsProper a
    pub distinct : IsDistinct scores s.cells
    pub doing : Doing scores a 0 (collect scores r movies) (items scores s)
    pub few_steps : n + weight a ≤ 46

  module _ (fit : All (IsFitFor scores r) movies) where
    Run-Inv : {n : ℕ} {a : Task} {s : Shared scores} → Processes n a s → Inv n a s
    Run-Inv start = record {
      proper = tt;
      distinct = filled-IsDistinct scores r movies;
      doing = rw (items-filled scores r movies) (
          begins (omega arith) (
            omega (
              arith,
              length-map (load scores (filled scores r movies).text) (filled scores r movies).cells,
              ap length (items-filled scores r movies),
            )));
      few_steps = omega (arith, weight_first 0 (length (filled scores r movies).cells));
    }
    Run-Inv (later {n} {b} {c} {t} {u} run st) =
        let inv = Run-Inv run in
        let (st', proper, distinct) =
          Step-items scores (length movies) st inv.proper inv.distinct in
        let (s, e, doing) =
          Step-Next scores (length movies) st' [] (collect scores r movies) (items scores t) [] 0
            refl (sym (append-nil (items scores t))) (length-collect scores r movies)
            (collect-IsFit scores r movies fit) inv.doing in
        record {
          proper = proper;
          distinct = distinct;
          doing = rw (e ∙ append-nil s) doing;
          few_steps =
              omega (arith, inv.few_steps, Step-weight scores (length movies) st' inv.doing);
        }

    -- At the end the memory holds the answer.
    finished-Answers :
        (s : Shared scores)
        → IsDone scores (collect scores r movies) (items scores s)
        → Answers scores r movies (some (print_cells scores s))
    finished-Answers s d = record {
      order = d.order;
      printed = rw d.is_sealed;
      perm = d.perm;
      is_sorted = d.is_sorted;
    }

    -- What a run has come to.
    pub record Outcome (n : ℕ) (a : Task) (s : Shared scores) : Type 0 where
      pub bounded : n ≤ 46
      pub goes_on :
          a ≢ finished
          → (b : Task) × (t : Shared scores) × SharedStep scores (length movies) a s b t
      pub answer : a ≡ finished → some (print_cells scores s) ≡ deal_request_process scores movies r

    -- For movies whose titles are shorter than 255 bytes, all above the tab, and whose scores for
    -- the request are not negative, and for every order in which the processes take their steps:
    -- there are no more than 46 steps, some process can take a step until the call of `mergesort`
    -- has returned, and when it has, the file is the one that the calls in sequence give.
    pub Processes-Outcome : {n : ℕ} {a : Task} {s : Shared scores} → Processes n a s → Outcome n a s
    Processes-Outcome {n} {a} {s} run =
        let inv = Run-Inv run in
        record {
          bounded = omega (arith, inv.few_steps);
          goes_on = λ ne.
              elim (progress scores (length movies) inv.doing [] [] (items scores s) refl
                (sym (append-nil (items scores s))) (length-collect scores r movies)
                (collect-IsFit scores r movies fit)) [
                  | inl over ↦ absurd (ne over)
                  | inr (b, ys, st) ↦
                      let (t, st') = Step-lift scores (length movies) s st refl inv.distinct in
                      (b, t, st')
                ];
          answer = λ over.
              Answers-unique scores r movies _ _
                (finished-Answers s (Doing-IsDone scores inv.doing over))
                (deal_request_process_sorts scores movies r fit);
        }
