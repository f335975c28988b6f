-- ===== src/Movies/Processes/Steps.antt =====
-- Every step of the processes on the shared memory is a step on the items that it stands for, and
-- every step that the items allow can be taken.
use system_programming_hw.Common.{ℕ, ◌<◌, ◌≡◌, refl, List, Option, some}
use system_programming_hw.Movies.Score.{Scores, Item}
use system_programming_hw.Movies.Merge as Merge
use system_programming_hw.Movies.Merge.{sort_range}
use system_programming_hw.Movies.Processes.{
  Shared, sort_leaf, merge, items, Task, begun, forked, finished, Step,
}
use system_programming_hw.Movies.Processes.Memory.{IsDistinct, items-merge, merge-IsDistinct}
use system_programming_hw.Movies.Processes.Leaf.{Agree, both_fail, both_sort, sort_leaf-Agree}

-- Only ranges with an entry are divided.
abbrev pub IsProper : Task → Type 0
IsProper (begun level l stop) = Unit
IsProper (forked l stop a b) = (l < stop) × IsProper a × IsProper b
IsProper finished = Unit

module _ (scores : Scores) (num : ℕ) where
  -- Steps on the shared memory, and on the items.
  abbrev pub SharedStep : Task → Shared scores → Task → Shared scores → Type 0
  SharedStep = Step (sort_leaf scores num) (merge scores)

  abbrev pub ItemStep : Task → List (Item scores) → Task → List (Item scores) → Type 0
  ItemStep = Step (sort_range scores num) (Merge.merge scores)

  Agree-some :
      (r : Option (Shared scores)) (q : Option (List (Item scores))) (t : Shared scores)
      → Agree scores r q
      → r ≡ some t
      → (q ≡ some (items scores t)) × IsDistinct scores t.cells
  Agree-some r q t both_fail e = cc
  Agree-some r q t (both_sort t' d) e = let same : t' ≡ t = cc in rw (← same) (refl, d)

  Agree-sorted :
      (r : Option (Shared scores)) (q : Option (List (Item scores))) (xs : List (Item scores))
      → Agree scores r q
      → q ≡ some xs
      → (t : Shared scores) × (r ≡ some t)
  Agree-sorted r q xs both_fail e = cc
  Agree-sorted r q xs (both_sort t d) e = (t, refl)

  pub Step-items :
      {a b : Task} {s t : Shared scores}
      → SharedStep a s b t
      → IsProper a
      → IsDistinct scores s.cells
      → ItemStep a (items scores s) b (items scores t) × IsProper b × IsDistinct scores t.cells
  Step-items (Step.return h) p d = (Step.return h, tt, d)
  Step-items (Step.sort_range {l} {stop} {s} {t} h last e) p d =
      let (sorted, d') = Agree-some _ _ t (sort_leaf-Agree scores num l stop s h d) e in
      (Step.sort_range h last sorted, tt, d')
  Step-items (Step.fork h inner) p d = (Step.fork h inner, (h, tt, tt), d)
  Step-items (Step.child st) p d =
      let (st', p', d') = Step-items st p.1 d in (Step.child st', (p.0, p', p.2), d')
  Step-items (Step.parent st) p d =
      let (st', p', d') = Step-items st p.2 d in (Step.parent st', (p.0, p.1, p'), d')
  Step-items (Step.waitpid {l} {stop} {s}) p d =
      (rw (items-merge scores l stop s) Step.waitpid, tt, merge-IsDistinct scores l stop s p.0 d)

  pub Step-lift :
      {a b : Task} {xs ys : List (Item scores)} (s : Shared scores)
      → ItemStep a xs b ys
      → xs ≡ items scores s
      → IsDistinct scores s.cells
      → (t : Shared scores) × SharedStep a s b t
  Step-lift s (Step.return h) e d = (s, Step.return h)
  Step-lift s (Step.sort_range {l} {stop} {t} h last sorted) e d =
      let (u, g) = Agree-sorted _ _ t (sort_leaf-Agree scores num l stop s h d) (rw e at sorted) in
      (u, Step.sort_range h last g)
  Step-lift s (Step.fork h inner) e d = (s, Step.fork h inner)
  Step-lift s (Step.child st) e d = let (t, st') = Step-lift s st e d in (t, Step.child st')
  Step-lift s (Step.parent st) e d = let (t, st') = Step-lift s st e d in (t, Step.parent st')
  Step-lift s (Step.waitpid {l} {stop}) e d = (merge scores l stop s, Step.waitpid)
