-- ===== src/Movies/Processes/Progress.antt =====
-- The steps of the processes come to an end, and until then some step can be taken.
use mathlib.Core.List.{append_assoc}
use system_programming_hw.Common.{
  ℕ, zero, suc, ◌+◌, ◌-◌, ◌*◌, ◌≤◌, ◌<◌, ◌≡◌, ◌≢◌, refl, sym, ap, ◌∙◌, List, ◌++◌, length, All,
  All-append_inv, length-append, arith, ◌⊎◌, inl, inr, dec_lt, ℕ_discrete,
}
use system_programming_hw.Movies.Score.{Scores, Item}
use system_programming_hw.Movies.Merge as Merge
use system_programming_hw.Movies.Merge.{sort_range, process_leaf}
use system_programming_hw.Movies.Merge.Ranges.{IsFit}
use system_programming_hw.Movies.Merge.Sorts.{SortsRange-leaf}
use system_programming_hw.Movies.Processes.{Task, begun, forked, finished, Step}
use system_programming_hw.Movies.Processes.Steps.{ItemStep}
use system_programming_hw.Movies.Processes.Runs.{Doing, begins, halves, done, Doing-length}

-- The most steps of a call with so many levels below it, and of a task.
whole : ℕ → ℕ
whole zero = 1
whole (suc n) = 2 * whole n + 2

pub weight : Task → ℕ
unfolding whole
weight (begun level l stop) = whole (4 - level)
weight (forked l stop a b) = weight a + weight b + 1
weight finished = 0

-- A call on level 0.
pub weight_first : (l stop : ℕ) → weight (begun 0 l stop) ≡ 46
unfolding weight
weight_first l stop = refl

whole_pos : (n : ℕ) → 0 < whole n
unfolding whole
whole_pos zero = omega arith
whole_pos (suc n) = omega arith

whole-level :
    (level : ℕ) → level ≤ 4 → level ≢ 4 → whole (4 - level) ≡ 2 * whole (4 - (level + 1)) + 2
unfolding whole
whole-level level small inner = let e : 4 - level ≡ suc (4 - (level + 1)) = omega arith in rw e refl

module _ (scores : Scores) (num : ℕ) where
  pub Step-weight :
      {a b : Task} {xs ys : List (Item scores)} {l : ℕ} {s₀ s : List (Item scores)}
      → ItemStep scores num a xs b ys
      → Doing scores a l s₀ s
      → weight b < weight a
  unfolding weight
  Step-weight (Step.return h) (begins small size) = whole_pos _
  Step-weight (Step.sort_range h last e) (begins small size) = whole_pos _
  Step-weight (Step.fork {level} h inner) (begins small size) =
      omega (arith, whole-level level small inner)
  Step-weight (Step.child st) (halves size mid p q) = omega (arith, Step-weight st p)
  Step-weight (Step.parent st) (halves size mid p q) = omega (arith, Step-weight st q)
  Step-weight Step.waitpid (halves size mid p q) = omega arith

  -- A step that a task can take.
  abbrev CanStep : Task → List (Item scores) → Type 0
  CanStep a xs = (b : Task) × (ys : List (Item scores)) × ItemStep scores num a xs b ys

  begun-CanStep :
      (front s₀ back : List (Item scores)) (level l stop : ℕ)
      → l ≡ length front
      → stop ≡ l + length s₀
      → length s₀ ≤ num
      → All (IsFit scores) s₀
      → CanStep (begun level l stop) (front ++ (s₀ ++ back))
  begun-CanStep front s₀ back level l stop at size few fit = elim (dec_lt l stop) [
    | no empty ↦ (finished, _, Step.return (omega arith))
    | yes h ↦ elim (ℕ_discrete level 4) [
      | no inner ↦ (_, _, Step.fork h inner)
      | yes last ↦
          let sorts =
            SortsRange-leaf scores process_leaf num front s₀ back l stop at (omega arith)
              (omega arith) few fit in
          (finished, _, Step.sort_range h last sorts.returned)
    ]
  ]

  pub progress :
      {a : Task} {l : ℕ} {s₀ s : List (Item scores)}
      → Doing scores a l s₀ s
      → (front back xs : List (Item scores)) → l ≡ length front
      → xs ≡ front ++ (s ++ back)
      → length s₀ ≤ num
      → All (IsFit scores) s₀
      → (a ≡ finished) ⊎ CanStep a xs
  progress (begins {level} {l} {stop} {s₀} small size) front back xs at e few fit =
      inr (rw e (begun-CanStep front s₀ back level l stop at size few fit))
  progress (halves {l} {stop} {s₁} {s₂} {t₁} {t₂} {a} {b} size mid p q) front back xs at e few fit =
      let fits = All-append_inv (IsFit scores) s₁ s₂ fit in
      let left =
        progress p front (t₂ ++ back) xs at (e ∙ ap (λ r. front ++ r) (append_assoc t₁ t₂ back))
          (omega (arith, few, length-append s₁ s₂)) fits.0 in
      let right =
        progress q (front ++ t₁) back xs
          (omega (arith, length-append front t₁, Doing-length scores p))
          (e
            ∙ ap (λ r. front ++ r) (append_assoc t₁ t₂ back)
            ∙ sym (append_assoc front t₁ (t₂ ++ back)))
          (omega (arith, few, length-append s₁ s₂)) fits.1 in
      inr (elim left [
        | inr (a', ys, st) ↦ (forked l stop a' b, ys, Step.child st)
        | inl over ↦ elim right [
          | inr (b', ys, st) ↦ (forked l stop a b', ys, Step.parent st)
          | inl too ↦ rw (over, too) (finished, Merge.merge scores l stop xs, Step.waitpid)
        ]
      ])
  progress (done d) front back xs at e few fit = inl refl
