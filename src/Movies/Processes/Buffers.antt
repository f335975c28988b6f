-- ===== src/Movies/Processes/Buffers.antt =====
-- Writing sorted items back to the buffers of the shared memory: the cells then stand for them.
use system_programming_hw.Common.{
  ℕ, zero, suc, ◌+◌, ◌-◌, ◌<◌, ◌≡◌, refl, ap, ◌∙◌, List, [], ◌∷◌, map, length, length-set,
  get_elem?, leb, ◌==◌, if◌then◌else◌, update, arith, Bool-cases, Option-cases, inl, inr, Every,
  Every-bind, Every-all,
}
use system_programming_hw.Movies.Score.{Scores, Item}
use system_programming_hw.Movies.Select.{argmax, swap, add_secret, seal_last, sort_loop, sort}
use system_programming_hw.Movies.Processes.{Cell, load, copy_back}
use system_programming_hw.Movies.Processes.Memory.{occurs, IsDistinct}

module _ (scores : Scores) where
  -- As many items as before.
  abbrev pub Sized : ℕ → List (Item scores) → Type 0
  Sized n xs = length xs ≡ n

  -- `sort` keeps the number of items.
  swap-length :
      (k : ℕ) (x : Item scores) (xs : List (Item scores))
      → Every (λ r. length r.1 ≡ length xs) (swap scores k x xs)
  unfolding swap
  swap-length zero x xs = refl
  swap-length (suc k) x xs = elim (Option-cases (get_elem? xs k)) [
    | inl none_such ↦ rw (none_such, swap, Every) tt
    | inr (y, at) ↦ rw (at, swap, Every) (length-set xs k x)
  ]

  seal_last-length : (xs : List (Item scores)) → Every (Sized (length xs)) (seal_last scores xs)
  unfolding seal_last
  seal_last-length [] = tt
  seal_last-length (x ∷ []) =
      Every-bind (λ z. Unit {0}) (Sized 1) (add_secret scores x) _ (Every-all _) (λ z _. refl)
  seal_last-length (x ∷ y ∷ xs) =
      Every-bind (Sized (length (y ∷ xs))) (Sized (length (x ∷ y ∷ xs))) (seal_last scores (y ∷ xs))
        _ (seal_last-length (y ∷ xs)) (λ zs e. ap suc e)

  sort_loop-length :
      (n : ℕ) (xs : List (Item scores)) → Every (Sized (length xs)) (sort_loop scores n xs)
  unfolding sort_loop
  sort_loop-length zero xs = seal_last-length xs
  sort_loop-length (suc n) [] = tt
  sort_loop-length (suc n) (x ∷ xs) =
      let Q = Sized (length (x ∷ xs)) in
      Every-bind (λ k. Unit {0}) Q (argmax scores x xs) _ (Every-all _)
        (λ k _.
          Every-bind (λ r. length r.1 ≡ length xs) Q (swap scores k x xs) _ (swap-length k x xs)
            (λ r e.
              Every-bind (λ z. Unit {0}) Q (add_secret scores r.0) _ (Every-all _)
                (λ z _.
                  Every-bind (Sized (length r.1)) Q (sort_loop scores n r.1) _
                    (sort_loop-length n r.1) (λ zs e'. ap suc (e' ∙ e)))))

  pub sort-length :
      (num : ℕ) (xs : List (Item scores)) → Every (Sized (length xs)) (sort scores num xs)
  unfolding sort
  sort-length num xs = elim (Bool-cases (leb (length xs) num)) [
    | inl few ↦ rw (few, sort) (sort_loop-length (length xs - 1) xs)
    | inr many ↦ rw (many, sort) tt
  ]

  -- A buffer that no cell has is not written.
  pub copy_back-other :
      (p : ℕ) (cs : List (Cell scores)) (xs : List (Item scores)) (text : ℕ → List ℕ)
      → occurs scores p cs ≡ 0
      → (copy_back scores cs xs text).1 p ≡ text p
  unfolding copy_back occurs
  copy_back-other p [] xs text h = refl
  copy_back-other p (c ∷ cs) [] text h = refl
  copy_back-other p (c ∷ cs) (x ∷ xs) text h =
      copy_back-other p cs xs (update text c.pointer x.name) (omega (arith, h)) ∙ ground (arith, h)

  -- The cells keep their buffers.
  pub occurs-copy_back :
      (p : ℕ) (cs : List (Cell scores)) (xs : List (Item scores)) (text : ℕ → List ℕ)
      → occurs scores p (copy_back scores cs xs text).0 ≡ occurs scores p cs
  unfolding copy_back occurs
  occurs-copy_back p [] xs text = refl
  occurs-copy_back p (c ∷ cs) [] text = refl
  occurs-copy_back p (c ∷ cs) (x ∷ xs) text =
      ap (λ n. (if c.pointer == p then 1 else 0) + n)
        (occurs-copy_back p cs xs (update text c.pointer x.name))

  occurs_self :
      (c : Cell scores) (cs : List (Cell scores))
      → IsDistinct scores (c ∷ cs)
      → occurs scores c.pointer cs ≡ 0
  unfolding occurs
  occurs_self c cs d = ground (arith, d c.pointer)

  occurs-tail :
      (c : Cell scores) (cs : List (Cell scores))
      → IsDistinct scores (c ∷ cs)
      → IsDistinct scores cs
  unfolding occurs
  occurs-tail c cs d p = omega (arith, d p)

  -- Written back to distinct buffers, the items are in the cells.
  pub copy_back-items :
      (cs : List (Cell scores)) (xs : List (Item scores)) (text : ℕ → List ℕ)
      → length xs ≡ length cs
      → IsDistinct scores cs
      → map (load scores (copy_back scores cs xs text).1) (copy_back scores cs xs text).0 ≡ xs
  unfolding copy_back
  copy_back-items [] [] text e d = refl
  copy_back-items [] (x ∷ xs) text e d = absurd (omega arith)
  copy_back-items (c ∷ cs) [] text e d = absurd (omega arith)
  copy_back-items (c ∷ cs) (x ∷ xs) text e d =
      let text' = update text c.pointer x.name in
      let kept : (copy_back scores cs xs text').1 c.pointer ≡ x.name =
        copy_back-other c.pointer cs xs text' (occurs_self c cs d) ∙ ground arith in
      rw (kept, copy_back-items cs xs text' (omega arith) (occurs-tail c cs d)) refl

  -- Cells whose buffers are not written stand for the same items.
  pub load-kept :
      (text text' : ℕ → List ℕ) (cs : List (Cell scores))
      → ((p : ℕ) → 0 < occurs scores p cs → text' p ≡ text p)
      → map (load scores text') cs ≡ map (load scores text) cs
  unfolding occurs
  load-kept text text' [] h = refl
  load-kept text text' (c ∷ cs) h =
      rw (h c.pointer (ground arith), load-kept text text' cs (λ p k. h p (omega (arith, k)))) refl
