-- ===== src/Movies/Select/Sorts.antt =====
-- `sort` of HW4/lib.c returns its items in order, with their names sealed.
use mathlib.Core.List.{Perm}
use mathlib.Core.List.Perm
use system_programming_hw.Common.{
  ℕ, zero, suc, ◌-◌, ◌≤◌, ◌<◌, ◌≡◌, refl, List, [], ◌∷◌, Option, some, length, get_elem?, set, map,
  All, arith, length-set, lt→ltb, le→leb,
}
use system_programming_hw.Movies.Score.{Scores, Item}
use system_programming_hw.Movies.Score.Order.{Le}
use system_programming_hw.Movies.Select.{swap, add_secret, sealed, sort_loop, sort}
use system_programming_hw.Movies.Select.Laws.{NonNeg, argmax-Best, All-get}

module _ (scores : Scores) where
  -- Each item may stand in front of all that follow it.
  abbrev pub IsSorted : List (Item scores) → Type 0
  IsSorted [] = Unit
  IsSorted (x ∷ xs) = All (Le scores x) xs × IsSorted xs

  -- The name leaves room for the seal.
  abbrev pub IsShort : Item scores → Type 0
  IsShort x = length x.name < 255

  set-perm :
      (xs : List (Item scores)) (k : ℕ) (x : Item scores) {b : Item scores}
      → get_elem? xs k ≡ some b
      → Perm (b ∷ set xs k x) (x ∷ xs)
  set-perm [] k x e = cc
  set-perm (c ∷ xs) zero x {b} e = let q : c ≡ b = cc in rw q (Perm.swap x b xs)
  set-perm (c ∷ xs) (suc k) x {b} e =
      Perm.trans (Perm.swap c b (set xs k x))
        (Perm.trans (Perm.cons c (set-perm xs k x e)) (Perm.swap x c xs))

  All-set :
      (P : Item scores → Type 0) (xs : List (Item scores)) (k : ℕ) (x : Item scores)
      → P x
      → All P xs
      → All P (set xs k x)
  All-set P [] k x p h = tt
  All-set P (c ∷ xs) zero x p h = (p, h.1)
  All-set P (c ∷ xs) (suc k) x p h = (h.0, All-set P xs k x p h.1)

  -- What `swap` does where the index is that of the item `b`.
  record Swapped (idx : ℕ) (x b : Item scores) (xs : List (Item scores)) : Type 1 where
    rest : List (Item scores)
    found : swap scores idx x xs ≡ some (b, rest)
    perm : Perm (b ∷ rest) (x ∷ xs)
    size : length rest ≡ length xs
    keeps : (P : Item scores → Type 0) → All P (x ∷ xs) → All P rest

  swap-Swapped :
      (idx : ℕ) (x : Item scores) (xs : List (Item scores)) {b : Item scores}
      → get_elem? (x ∷ xs) idx ≡ some b
      → Swapped idx x b xs
  unfolding swap
  swap-Swapped zero x xs {b} e =
      let q : x ≡ b = cc in
      rw (← q)
        (record { rest = xs; found = refl; perm = Perm.rfl; size = refl; keeps = λ P h. h.1 })
  swap-Swapped (suc k) x xs {b} e = record {
    rest = set xs k x;
    found = ground arith;
    perm = set-perm xs k x e;
    size = length-set xs k x;
    keeps = λ P h. All-set P xs k x h.0 h.1;
  }

  add_secret_short : (x : Item scores) → IsShort x → add_secret scores x ≡ some (sealed scores x)
  unfolding add_secret
  add_secret_short x h = rw (lt→ltb _ _ h)

  -- What the loop returns of `xs`.
  pub record Sorts (xs : List (Item scores)) (r : Option (List (Item scores))) : Type 1 where
    pub order : List (Item scores)
    pub returned : r ≡ some (map (sealed scores) order)
    pub perm : Perm order xs
    pub is_sorted : IsSorted order
    pub size : length order ≡ length xs
    pub keeps : (P : Item scores → Type 0) → All P xs → All P order

  sort_loop-Sorts :
      (n : ℕ) (xs : List (Item scores))
      → length xs ≡ suc n
      → All (NonNeg scores) xs
      → All IsShort xs
      → Sorts xs (sort_loop scores n xs)
  unfolding sort_loop
  sort_loop-Sorts zero [] e nonneg short = absurd (omega arith)
  sort_loop-Sorts zero (x ∷ []) e nonneg short = record {
    order = x ∷ [];
    returned = rw (add_secret_short x short.0);
    perm = Perm.rfl;
    is_sorted = (tt, tt);
    size = refl;
    keeps = λ P h. h;
  }
  sort_loop-Sorts zero (x ∷ y ∷ xs) e nonneg short = absurd (omega arith)
  sort_loop-Sorts (suc n) [] e nonneg short = absurd (omega arith)
  sort_loop-Sorts (suc n) (x ∷ xs) e nonneg short =
      let (idx, b, found, at, le) = argmax-Best scores x xs nonneg in
      let sw = swap-Swapped idx x xs at in
      let ih =
        sort_loop-Sorts n sw.rest (omega (arith, sw.size)) (sw.keeps _ nonneg) (sw.keeps _ short) in
      record {
        order = b ∷ ih.order;
        returned = rw (
          found,
          sw.found,
          add_secret_short b (All-get scores IsShort (x ∷ xs) idx short at),
          ih.returned,
        );
        perm = Perm.trans (Perm.cons b ih.perm) sw.perm;
        size = omega (arith, ih.size, sw.size);
        is_sorted = (ih.keeps (Le scores b) (sw.keeps _ le), ih.is_sorted);
        keeps = λ P h. (All-get scores P (x ∷ xs) idx h at, ih.keeps P (sw.keeps P h));
      }

  -- `sort` of at least one item, no more than there are movies, with no negative score and names
  -- shorter than 255 bytes, returns those items, sorted, with sealed names.
  pub sort-Sorts :
      (num_of_movies : ℕ) (xs : List (Item scores))
      → 0 < length xs
      → length xs ≤ num_of_movies
      → All (NonNeg scores) xs
      → All IsShort xs
      → Sorts xs (sort scores num_of_movies xs)
  unfolding sort
  sort-Sorts num xs some_item fits nonneg short =
      rw (le→leb _ _ fits) (sort_loop-Sorts (length xs - 1) xs (omega arith) nonneg short)
