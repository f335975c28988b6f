-- ===== src/Threads/Bodies/Subarray.antt =====
-- `max_subarray` keeps the greatest sum of consecutive values.
use system_programming_hw.Common.{
  ℕ, ◌+◌, ◌≤◌, ◌<◌, ◌≡◌, refl, ap, ◌⊎◌, inl, inr, List, [], ◌∷◌, ◌++◌, map, arith, All, All-append,
  Bool-cases, ltb→lt, ltb→ge,
}
use system_programming_hw.Common.Int.{
  ℤ, pos, ◌+ℤ◌, ◌≤ℤ◌, ltb_ℤ, wrap32, wrap32-add, pos_part, neg_part, int_laws,
}
use system_programming_hw.Threads.Bodies.{Tcb, max, setup, subarray_step}

-- The control block after some values, the last one first.
unfoldable pub after_values : List ℤ → Tcb → Tcb
after_values [] t = t
after_values (v ∷ earlier) t = subarray_step v (after_values earlier t)

-- The sums of the runs of consecutive values that begin with the first of the list.
abbrev pub head_sums : List ℤ → List ℤ
head_sums [] = []
head_sums (v ∷ vs) = v ∷ map (λ s. s +ℤ v) (head_sums vs)

-- The sums of all runs of consecutive values.
abbrev pub all_sums : List ℤ → List ℤ
all_sums [] = []
all_sums (v ∷ vs) = head_sums (v ∷ vs) ++ all_sums vs

abbrev pub Among : ℤ → List ℤ → Type 0
Among a [] = ⊥
Among a (b ∷ bs) = (a ≡ b) ⊎ Among a bs

-- `m` is the greatest of some integers.
pub record IsGreatest (m : ℤ) (sums : List ℤ) : Type 0 where
  pub attained : Among m sums
  pub upper : All (λ s. s ≤ℤ m) sums

-- The absolute values, added up.
abbrev pub weight : List ℤ → ℕ
weight [] = 0
weight (v ∷ vs) = pos_part v + neg_part v + weight vs

max_cases : (a b : ℤ) → ((max a b ≡ a) × (b ≤ℤ a)) ⊎ ((max a b ≡ b) × (a ≤ℤ b))
max_cases a b = elim (Bool-cases (ltb_ℤ b a)) [
  | inl greater ↦ inl (rw greater, omega (arith, ltb→lt _ _ greater))
  | inr other ↦ inr (rw other, omega (arith, ltb→ge _ _ other))
]

-- The greatest sum of a run that ends with the newest value, where there is one.
abbrev pub IsHead : ℤ → List ℤ → Type 0
IsHead x [] = x ≡ pos 0
IsHead x (v ∷ vs) = IsGreatest x (head_sums (v ∷ vs))

pub record Holds (vs : List ℤ) (t : Tcb) : Type 0 where
  pub head : IsHead t.x vs
  pub whole : IsGreatest t.y (pos 0 ∷ all_sums vs)
  pub small_x : pos_part t.x + neg_part t.x ≤ weight vs

All-shift :
    (sums : List ℤ) (m v : ℤ)
    → All (λ s. s ≤ℤ m) sums
    → All (λ s. s ≤ℤ m +ℤ v) (map (λ s. s +ℤ v) sums)
All-shift [] m v h = tt
All-shift (s ∷ sums) m v h = (omega int_laws, All-shift sums m v h.1)

Among-shift : (sums : List ℤ) (m v : ℤ) → Among m sums → Among (m +ℤ v) (map (λ s. s +ℤ v) sums)
Among-shift [] m v x = elim x [ ]
Among-shift (s ∷ sums) m v (inl e) = inl (ap (λ a. a +ℤ v) e)
Among-shift (s ∷ sums) m v (inr h) = inr (Among-shift sums m v h)

All-le : (sums : List ℤ) (m k : ℤ) → m ≤ℤ k → All (λ s. s ≤ℤ m) sums → All (λ s. s ≤ℤ k) sums
All-le [] m k h a = tt
All-le (s ∷ sums) m k h a = (omega arith, All-le sums m k h a.1)

Among-left : (xs ys : List ℤ) (m : ℤ) → Among m xs → Among m (xs ++ ys)
Among-left [] ys m h = elim h [ ]
Among-left (x ∷ xs) ys m (inl e) = inl e
Among-left (x ∷ xs) ys m (inr h) = inr (Among-left xs ys m h)

Among-right : (xs ys : List ℤ) (m : ℤ) → Among m ys → Among m (xs ++ ys)
Among-right [] ys m h = h
Among-right (x ∷ xs) ys m h = inr (Among-right xs ys m h)

Greatest-max :
    (y x a : ℤ) (rest heads : List ℤ)
    → IsGreatest y (a ∷ rest)
    → IsGreatest x heads
    → IsGreatest (max y x) (a ∷ heads ++ rest)
Greatest-max y x a rest heads g h = elim (max_cases y x) [
  | inl (e, le) ↦ rw e (record {
    attained = elim g.attained [
      | inl same ↦ inl same
      | inr among ↦ inr (Among-right heads rest y among)
    ];
    upper = (g.upper.0, All-append _ heads rest (All-le heads x y le h.upper) g.upper.1);
  })
  | inr (e, le) ↦ rw e (record {
    attained = inr (Among-left heads rest x h.attained);
    upper =
        (omega (arith, g.upper.0), All-append _ heads rest h.upper (All-le rest y x le g.upper.1));
  })
]

zero_left : (v : ℤ) → pos 0 +ℤ v ≡ v
unfolding ◌+ℤ◌
zero_left v = ground arith

zero_sum : (x v : ℤ) → x ≡ pos 0 → x +ℤ v ≡ v
zero_sum x v e = rw e (zero_left v)

sum_small :
    (x v : ℤ)
    → pos_part (x +ℤ v) + neg_part (x +ℤ v) ≤ pos_part x + neg_part x + pos_part v + neg_part v
unfolding ◌+ℤ◌
sum_small x v = ground arith

max_self : (v : ℤ) → max v v ≡ v
max_self v = ground arith

head_step : (x v : ℤ) (vs : List ℤ) → IsHead x vs → IsGreatest (max v (x +ℤ v)) (head_sums (v ∷ vs))
head_step x v [] e =
    let sum : x +ℤ v ≡ v = zero_sum x v e in
    rw sum (rw (max_self v) (record { attained = inl refl; upper = (omega arith, tt) }))
head_step x v (w ∷ vs) g = elim (max_cases v (x +ℤ v)) [
  | inl (e, le) ↦ rw e (record {
    attained = inl refl;
    upper = (
      omega arith,
      All-le (map (λ s. s +ℤ v) (head_sums (w ∷ vs))) (x +ℤ v) v le
          (All-shift (head_sums (w ∷ vs)) x v g.upper),
    );
  })
  | inr (e, le) ↦ rw e (record {
    attained = inr (Among-shift (head_sums (w ∷ vs)) x v g.attained);
    upper = (le, All-shift (head_sums (w ∷ vs)) x v g.upper);
  })
]

-- The addition of `max_subarray` does not wrap.
exact_sum :
    (x v : ℤ) (k : ℕ)
    → pos_part x + neg_part x ≤ k
    → pos_part v + neg_part v + k < 2147483648
    → wrap32 (x +ℤ v) ≡ x +ℤ v
exact_sum x v k h small = wrap32-add x v (omega arith) (omega arith)

max_small :
    (x v : ℤ) (k : ℕ)
    → pos_part x + neg_part x ≤ k
    → pos_part (max v (x +ℤ v)) + neg_part (max v (x +ℤ v)) ≤ pos_part v + neg_part v + k
max_small x v k h = elim (max_cases v (x +ℤ v)) [
  | inl (e, le) ↦ rw e (omega arith)
  | inr (e, le) ↦ rw e (omega (arith, sum_small x v))
]

pub step-Holds :
    (v : ℤ) (vs : List ℤ) (t : Tcb)
    → weight (v ∷ vs) < 2147483648
    → Holds vs t
    → Holds (v ∷ vs) (subarray_step v t)
unfolding subarray_step
step-Holds v vs t small h = rw (exact_sum t.x v (weight vs) h.small_x small) (record {
  head = head_step t.x v vs h.head;
  whole =
      Greatest-max t.y (max v (t.x +ℤ v)) (pos 0) (all_sums vs) (head_sums (v ∷ vs)) h.whole
        (head_step t.x v vs h.head);
  small_x = max_small t.x v (weight vs) h.small_x;
})

pub after_values-Holds :
    (vs : List ℤ) (id : ℕ) (arg : ℤ)
    → weight vs < 2147483648
    → Holds vs (after_values vs (setup id arg))
unfolding after_values setup
after_values-Holds [] id arg h = record {
  head = refl;
  whole = record { attained = inl refl; upper = (omega arith, tt) };
  small_x = omega arith;
}
after_values-Holds (v ∷ vs) id arg h =
    step-Holds v vs (after_values vs (setup id arg)) h (after_values-Holds vs id arg (omega arith))

-- After any values whose absolute values add up to less than 2^31, the number that `max_subarray`
-- keeps is the greatest of 0 and all sums of consecutive values.
pub subarray-IsGreatest :
    (vs : List ℤ) (id : ℕ) (arg : ℤ)
    → weight vs < 2147483648
    → IsGreatest (after_values vs (setup id arg)).y (pos 0 ∷ all_sums vs)
subarray-IsGreatest vs id arg h = (after_values-Holds vs id arg h).whole
