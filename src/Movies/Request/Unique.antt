-- ===== src/Movies/Request/Unique.antt =====
-- The names of sorted items: a list has one order of them.
use mathlib.Core.List.{Perm, Permᴰ}
use mathlib.Core.Logic.{∥∥₁_elim}
use system_programming_hw.Common.{
  ℕ, suc, ◌≤◌, ◌≡◌, refl, sym, ap, ◌∙◌, Bool, true, false, List, [], ◌∷◌, length, if◌then◌else◌,
  All, arith, Bool-cases, inl, inr,
}
use system_programming_hw.Text.{strcmp_lt}
use system_programming_hw.Movies.Score.{Scores, Item, before}
use system_programming_hw.Movies.Select.Sorts.{IsSorted}
use system_programming_hw.Movies.Score.Order.{Le, before-asymm, before-cotrans}

-- How many elements pass the test.
unfoldable pub count {ℓ} : {A : Type ℓ} → (A → Bool) → List A → ℕ
count p [] = 0
count p (x ∷ xs) = let rest = count p xs in if p x then suc rest else rest

module _ {ℓ} {A : Type ℓ} (p : A → Bool) where
  count_le : (xs : List A) → count p xs ≤ length xs
  unfolding count
  count_le [] = omega arith
  count_le (x ∷ xs) = ground (arith, count_le xs)

  count-All : (xs : List A) → All (λ x. p x ≡ true) xs → count p xs ≡ length xs
  unfolding count
  count-All [] h = refl
  count-All (x ∷ xs) h = rw (h.0, count-All xs h.1) refl

  count_cons :
      (x y : A) (xs ys : List A)
      → p x ≡ p y
      → count p (x ∷ xs) ≡ count p (y ∷ ys)
      → count p xs ≡ count p ys
  unfolding count
  count_cons x y xs ys same h = elim (Bool-cases (p y)) [
    | inl passes ↦ omega (arith, rw (same, passes) at h)
    | inr fails ↦ rw (same, fails) at h
  ]

  cons_count :
      (x y : A) (xs ys : List A)
      → p x ≡ p y
      → count p xs ≡ count p ys
      → count p (x ∷ xs) ≡ count p (y ∷ ys)
  unfolding count
  cons_count x y xs ys same h = rw (same, h) refl

  count_swap : (x y : A) (xs : List A) → count p (x ∷ y ∷ xs) ≡ count p (y ∷ x ∷ xs)
  unfolding count
  count_swap x y xs = ground arith

  count-Permᴰ : {xs ys : List A} → Permᴰ xs ys → count p xs ≡ count p ys
  count-Permᴰ Permᴰ.nil = refl
  count-Permᴰ (Permᴰ.cons {a} {b} {l₁} {l₂} e d) = cons_count a b l₁ l₂ (ap p e) (count-Permᴰ d)
  count-Permᴰ (Permᴰ.swap {a} {b} {a'} {b'} {l} e f) =
      count_swap a b l
      ∙ cons_count b a' (a ∷ l) (b' ∷ l) (ap p f) (cons_count a b' l l (ap p e) refl)
  count-Permᴰ (Permᴰ.trans d e) = count-Permᴰ d ∙ count-Permᴰ e

  count-Perm : {xs ys : List A} → Perm xs ys → count p xs ≡ count p ys
  count-Perm h = ∥∥₁_elim h (hlevel) (λ d. count-Permᴰ d)

count-length {ℓ} : {A : Type ℓ} (xs : List A) → count (λ x. true) xs ≡ length xs
unfolding count
count-length [] = refl
count-length (x ∷ xs) = ap suc (count-length xs)

strcmp_lt-antisym : (s t : List ℕ) → strcmp_lt s t ≡ false → strcmp_lt t s ≡ false → s ≡ t
unfolding strcmp_lt
strcmp_lt-antisym [] [] h k = refl
strcmp_lt-antisym [] (d ∷ t) h k = cc
strcmp_lt-antisym (c ∷ s) [] h k = cc
strcmp_lt-antisym (c ∷ s) (d ∷ t) h k = ground (arith, strcmp_lt-antisym s t)

module _ (scores : Scores) where
  open scores use {eqb_lem}

  -- The names of two lists are the same.
  abbrev pub SameNames : List (Item scores) → List (Item scores) → Type 0
  SameNames [] [] = Unit
  SameNames (x ∷ xs) (y ∷ ys) = (x.name ≡ y.name) × SameNames xs ys
  SameNames _ _ = ⊥

  same_name : (x y : Item scores) → Le scores x y → Le scores y x → x.name ≡ y.name
  unfolding before
  same_name x y h k =
      ground
        (arith, eqb_lem x.score y.score, eqb_lem y.score x.score, strcmp_lt-antisym x.name y.name)

  before-same :
      (x y a : Item scores) → Le scores x y → Le scores y x → before scores a x ≡ before scores a y
  before-same x y a h k = elim (Bool-cases (before scores a x)) [
    | inl front ↦ elim (Bool-cases (before scores a y)) [
      | inl front_too ↦ front ∙ sym front_too
      | inr behind ↦ cc (before-cotrans scores a y x front behind)
    ]
    | inr behind ↦ elim (Bool-cases (before scores a y)) [
      | inl front ↦ cc (before-cotrans scores a x y front behind)
      | inr behind_too ↦ behind ∙ sym behind_too
    ]
  ]

  before_irrefl : (x : Item scores) → before scores x x ≡ false
  before_irrefl x = elim (Bool-cases (before scores x x)) [
    | inl front ↦ before-asymm scores x x front
    | inr behind ↦ behind
  ]

  -- What is behind `y` is behind all that `x`, which is behind `y`, may stand in front of.
  All-before :
      (x y : Item scores) (zs : List (Item scores))
      → before scores y x ≡ true
      → All (Le scores x) zs
      → All (λ z. before scores y z ≡ true) zs
  All-before x y [] h k = tt
  All-before x y (z ∷ zs) h k = (
    elim (Bool-cases (before scores y z)) [
      | inl front ↦ front
      | inr behind ↦ cc (before-cotrans scores y z x h behind, k.0)
    ],
    All-before x y zs h k.1,
  )

  -- The lists have as many items, and as many behind each item.
  abbrev Agree : List (Item scores) → List (Item scores) → Type 0
  Agree xs ys =
      (length xs ≡ length ys)
      × ((a : Item scores) → count (before scores a) xs ≡ count (before scores a) ys)

  count_self :
      (y : Item scores) (ys : List (Item scores)) → count (before scores y) (y ∷ ys) ≤ length ys
  unfolding count
  count_self y ys = rw (before_irrefl y) (count_le (before scores y) ys)

  head-Le :
      (x y : Item scores) (xs ys : List (Item scores))
      → Agree (x ∷ xs) (y ∷ ys)
      → All (Le scores x) xs
      → Le scores x y
  head-Le x y xs ys h sorted = elim (Bool-cases (before scores y x)) [
    | inr behind ↦ behind
    | inl front ↦
        let all = count-All (before scores y) (x ∷ xs) (front, All-before x y xs front sorted) in
        absurd (omega (arith, all, h.0, h.1 y, count_self y ys))
  ]

  Agree-sym : (xs ys : List (Item scores)) → Agree xs ys → Agree ys xs
  Agree-sym xs ys h = (sym h.0, λ a. sym (h.1 a))

  sorted-SameNames :
      (xs ys : List (Item scores))
      → Agree xs ys
      → IsSorted scores xs
      → IsSorted scores ys
      → SameNames xs ys
  sorted-SameNames [] [] h s t = tt
  sorted-SameNames [] (y ∷ ys) h s t = absurd (omega (arith, h.0))
  sorted-SameNames (x ∷ xs) [] h s t = absurd (omega (arith, h.0))
  sorted-SameNames (x ∷ xs) (y ∷ ys) h s t =
      let first = head-Le x y xs ys h s.0 in
      let second = head-Le y x ys xs (Agree-sym (x ∷ xs) (y ∷ ys) h) t.0 in
      (
        same_name x y first second,
        sorted-SameNames xs ys
            (
              omega (arith, h.0),
              λ a. count_cons (before scores a) x y xs ys (before-same x y a first second) (h.1 a),
            )
            s.1 t.1,
      )

  -- Two sorted lists of the same items have the same names, in the same order.
  pub perm-SameNames :
      (xs ys : List (Item scores))
      → Perm xs ys
      → IsSorted scores xs
      → IsSorted scores ys
      → SameNames xs ys
  perm-SameNames xs ys h s t =
      let size = sym (count-length xs) ∙ count-Perm (λ x. true) h ∙ count-length ys in
      sorted-SameNames xs ys (size, λ a. count-Perm (before scores a) h) s t
