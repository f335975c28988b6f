-- ===== src/Movies/Processes/Runs.antt =====
-- Whatever the order of their steps, the processes sort: each works on its own range of the items.
use mathlib.Core.Path.{subst}
use mathlib.Core.List.{Perm, append_assoc}
use mathlib.Core.List.Perm
use system_programming_hw.Common.{
  ℕ, ◌+◌, ◌-◌, ◌/◌, ◌≤◌, ◌<◌, ◌≡◌, ◌≢◌, refl, sym, ap, ◌∙◌, List, [], ◌∷◌, ◌++◌, map, some, take,
  drop, length, length-map, length-append, length-take, length-drop, take-append-drop, All, All-imp,
  All-append_inv, arith,
}
use system_programming_hw.Movies.Score.{Scores, Item}
use system_programming_hw.Movies.Select.{sealed}
use system_programming_hw.Movies.Select.Sorts.{IsSorted}
use system_programming_hw.Movies.Merge as Merge
use system_programming_hw.Movies.Merge.{merge_items, sort_range, process_leaf}
use system_programming_hw.Movies.Merge.Laws.{
  IsPlain, merge_items-sealed, merge_items-perm, length-merge_items, All-merge_items,
  merge_items-IsSorted,
}
use system_programming_hw.Movies.Merge.Ranges.{merge_lem, IsFit}
use system_programming_hw.Movies.Merge.Sorts.{SortsRange-leaf}
use system_programming_hw.Movies.Processes.{Task, begun, forked, finished, Step}
use system_programming_hw.Movies.Processes.Steps.{ItemStep}

module _ (scores : Scores) where
  -- `s` is `s₀`, sorted and sealed.
  pub record IsDone (s₀ s : List (Item scores)) : Type 0 where
    pub order : List (Item scores)
    pub is_sealed : s ≡ map (sealed scores) order
    pub perm : Perm order s₀
    pub is_sorted : IsSorted scores order
    pub size : length order ≡ length s₀
    pub plain : All (IsPlain scores) order

  -- A call on the range from `l` on, whose items were `s₀` and are now `s`.
  pub data Doing : Task → ℕ → List (Item scores) → List (Item scores) → Type 0 where
    begins :
        {level l stop : ℕ} {s₀ : List (Item scores)}
        → level ≤ 4
        → stop ≡ l + length s₀
        → Doing (begun level l stop) l s₀ s₀
    halves :
        {l stop : ℕ} {s₁ s₂ t₁ t₂ : List (Item scores)} {a b : Task}
        → stop ≡ l + length s₁ + length s₂
        → (l + stop - 1) / 2 + 1 ≡ l + length s₁
        → Doing a l s₁ t₁
        → Doing b (l + length s₁) s₂ t₂
        → Doing (forked l stop a b) l (s₁ ++ s₂) (t₁ ++ t₂)
    done : {l : ℕ} {s₀ s : List (Item scores)} → IsDone s₀ s → Doing finished l s₀ s

  pub Doing-length :
      {a : Task} {l : ℕ} {s₀ s : List (Item scores)} → Doing a l s₀ s → length s ≡ length s₀
  Doing-length (begins h e) = refl
  Doing-length (halves {s₁} {s₂} {t₁} {t₂} e m p q) =
      omega (arith, length-append s₁ s₂, length-append t₁ t₂, Doing-length p, Doing-length q)
  Doing-length (done {s} d) = ap length d.is_sealed ∙ length-map (sealed scores) d.order ∙ d.size

  pub Doing-IsDone :
      {a : Task} {l : ℕ} {s₀ s : List (Item scores)} → Doing a l s₀ s → a ≡ finished → IsDone s₀ s
  Doing-IsDone (begins small size) e = cc
  Doing-IsDone (halves size mid p q) e = cc
  Doing-IsDone (done d) e = d

  IsDone-empty : (s : List (Item scores)) → length s ≡ 0 → IsDone s s
  IsDone-empty [] e = record {
    order = [];
    is_sealed = refl;
    perm = Perm.rfl;
    is_sorted = tt;
    size = refl;
    plain = tt;
  }
  IsDone-empty (x ∷ s) e = absurd (omega arith)

  IsDone-merge :
      {s₁ s₂ t₁ t₂ : List (Item scores)}
      → IsDone s₁ t₁
      → IsDone s₂ t₂
      → IsDone (s₁ ++ s₂) (merge_items scores t₁ t₂)
  IsDone-merge {s₁} {s₂} p q = record {
    order = merge_items scores p.order q.order;
    is_sealed =
        rw (p.is_sealed, q.is_sealed) (merge_items-sealed scores p.order q.order p.plain q.plain);
    perm = Perm.trans (merge_items-perm scores p.order q.order) (Perm.append p.perm q.perm);
    is_sorted = merge_items-IsSorted scores p.order q.order p.is_sorted q.is_sorted;
    size =
        omega
          (arith, length-merge_items scores p.order q.order, length-append s₁ s₂, p.size, q.size);
    plain = All-merge_items scores (IsPlain scores) p.order q.order p.plain q.plain;
  }

  module _ (num : ℕ) where
    -- What a step leaves of the range, with what is around it as it was.
    abbrev Next : Task → ℕ → (front s₀ back ys : List (Item scores)) → Type 0
    Next b l front s₀ back ys =
        (s : List (Item scores)) × (ys ≡ front ++ (s ++ back)) × Doing b l s₀ s

    leaf-Next :
        (front s₀ back : List (Item scores)) (l stop : ℕ) {ys : List (Item scores)}
        → l ≡ length front
        → stop ≡ l + length s₀
        → l < stop
        → length s₀ ≤ num
        → All (IsFit scores) s₀
        → sort_range scores num l stop (front ++ (s₀ ++ back)) ≡ some ys
        → Next finished l front s₀ back ys
    leaf-Next front s₀ back l stop at size h few fit e =
        let sorts =
          SortsRange-leaf scores process_leaf num front s₀ back l stop at (omega arith)
            (omega arith) few fit in
        (
          map (sealed scores) sorts.order,
          cc (sorts.returned, e),
          done (record {
            order = sorts.order;
            is_sealed = refl;
            perm = sorts.perm;
            is_sorted = sorts.is_sorted;
            size = sorts.size;
            plain =
                sorts.keeps (IsPlain scores)
                  (All-imp (IsFit scores) (IsPlain scores) s₀ (λ x h. h.2) fit);
          }),
        )

    fork-Next :
        (s₀ : List (Item scores)) (level l stop : ℕ)
        → l < stop
        → level ≢ 4
        → level ≤ 4
        → stop ≡ l + length s₀
        → Doing
            (forked l stop
              (begun (level + 1) l ((l + stop - 1) / 2 + 1))
              (begun (level + 1) ((l + stop - 1) / 2 + 1) stop))
            l
            s₀
            s₀
    fork-Next s₀ level l stop h inner small size =
        let k = (length s₀ - 1) / 2 + 1 in
        let mid = (l + stop - 1) / 2 + 1 in
        subst
          (λ x. Doing (forked l stop (begun (level + 1) l mid) (begun (level + 1) mid stop)) l x x)
          (take-append-drop k s₀)
          (halves {s₁ = take k s₀} {s₂ = drop k s₀}
            (omega (arith, length-take k s₀, length-drop k s₀)) (omega (arith, length-take k s₀))
            (begins (omega arith) (omega (arith, length-take k s₀)))
            (let start : mid ≡ l + length (take k s₀) = omega (arith, length-take k s₀) in
              subst (λ x. Doing (begun (level + 1) mid stop) x (drop k s₀) (drop k s₀)) start
                (begins (omega arith) (omega (arith, length-take k s₀, length-drop k s₀)))))

    pub Step-Next :
        {a b : Task} {xs ys : List (Item scores)}
        → ItemStep scores num a xs b ys
        → (front s₀ s back : List (Item scores)) (l : ℕ) → l ≡ length front
        → xs ≡ front ++ (s ++ back)
        → length s₀ ≤ num
        → All (IsFit scores) s₀
        → Doing a l s₀ s
        → Next b l front s₀ back ys
    Step-Next (Step.return h) front s₀ s back l at e few fit (begins small size) =
        (s, e, done (IsDone-empty s (omega arith)))
    Step-Next (Step.sort_range h last g) front s₀ s back l at e few fit (begins small size) =
        leaf-Next front s₀ back l _ at size h few fit (rw e at g)
    Step-Next (Step.fork h inner) front s₀ s back l at e few fit (begins small size) =
        (s, e, fork-Next s₀ _ l _ h inner small size)
    Step-Next (Step.child st) front s₀ s back l at e few fit
          (halves {s₁} {s₂} {t₁} {t₂} size mid p q) =
        let (t, e', p') =
          Step-Next st front s₁ t₁ (t₂ ++ back) l at
            (e ∙ ap (λ r. front ++ r) (append_assoc t₁ t₂ back))
            (omega (arith, few, length-append s₁ s₂)) (All-append_inv (IsFit scores) s₁ s₂ fit).0
            p in
        (t ++ t₂, e' ∙ ap (λ r. front ++ r) (sym (append_assoc t t₂ back)), halves size mid p' q)
    Step-Next (Step.parent st) front s₀ s back l at e few fit
          (halves {s₁} {s₂} {t₁} {t₂} size mid p q) =
        let (t, e', q') =
          Step-Next st (front ++ t₁) s₂ t₂ back (l + length s₁)
            (omega (arith, length-append front t₁, Doing-length p))
            (e
              ∙ ap (λ r. front ++ r) (append_assoc t₁ t₂ back)
              ∙ sym (append_assoc front t₁ (t₂ ++ back)))
            (omega (arith, few, length-append s₁ s₂)) (All-append_inv (IsFit scores) s₁ s₂ fit).1
            q in
        (
          t₁ ++ t,
          e'
              ∙ append_assoc front t₁ (t ++ back)
              ∙ ap (λ r. front ++ r) (sym (append_assoc t₁ t back)),
          halves size mid p q',
        )
    Step-Next (Step.waitpid {l = l'} {stop}) front s₀ s back l at e few fit
          (halves {s₁} {s₂} {t₁} {t₂} size mid (done p) (done q)) =
        (
          merge_items scores t₁ t₂,
          ap (Merge.merge scores l stop) (e ∙ ap (λ r. front ++ r) (append_assoc t₁ t₂ back))
              ∙ merge_lem scores front t₁ t₂ back l stop at
                  (omega (arith, Doing-length (done {l = l} p)))
                  (omega (arith, Doing-length (done {l = l} p), Doing-length (done {l = l} q))),
          done (IsDone-merge p q),
        )
