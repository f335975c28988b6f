-- ===== src/Text/Numbers.antt =====
-- The numbers that `atoi` reads of short texts.
use system_programming_hw.Common.{
  ℕ, zero, suc, ◌+◌, ◌-◌, ◌*◌, ◌≤◌, ◌<◌, ◌≡◌, false, List, [], ◌∷◌, length, ltb, ◌==◌, arith,
  Bool-cases, inl, inr,
}
use system_programming_hw.Common.Int.{ℤ, pos, wrap32, wrap32_fits, sub_ℕ, pos_part, neg_part}
use system_programming_hw.Text.{
  c_string, skip_spaces, digits_value, isdigit, atoi, positive_int, negative_int, signed_int,
}

-- A bound on a number below `k` that is followed by `n` more digits.
abbrev top : ℕ → ℕ → ℕ
top zero k = k
top (suc n) k = top n (k * 10)

top_le : (n k : ℕ) → k ≤ top n k
top_le zero k = omega arith
top_le (suc n) k = omega (arith, top_le n (k * 10))

digits_value-top :
    (n k acc : ℕ) (s : List ℕ) → acc < k → length s ≤ n → digits_value acc s < top n k
unfolding digits_value
digits_value-top n k acc [] h short = omega (arith, h, top_le n k)
digits_value-top zero k acc (c ∷ s) h short = absurd (omega arith)
digits_value-top (suc n) k acc (c ∷ s) h short = elim (Bool-cases (isdigit c)) [
  | inl digit ↦
      let low : acc * 10 + (c - 48) < k * 10 = ground (arith, digit, h) in
      rw digit (digits_value-top n (k * 10) (acc * 10 + (c - 48)) s low (omega (arith, short)))
  | inr other ↦ rw other (omega (arith, h, top_le (suc n) k))
]

length-skip_spaces : (s : List ℕ) → length (skip_spaces s) ≤ length s
unfolding skip_spaces
length-skip_spaces [] = omega arith
length-skip_spaces (c ∷ s) = ground (arith, length-skip_spaces s)

pub length-c_string : (s : List ℕ) → length (c_string s) ≤ length s
unfolding c_string
length-c_string [] = omega arith
length-c_string (c ∷ s) = ground (arith, length-c_string s)

-- A number of at most four digits.
abbrev pub IsSmall : ℤ → Type 0
IsSmall v = pos_part v + neg_part v < 10000

wrap-IsSmall : (v : ℤ) → IsSmall v → IsSmall (wrap32 v)
wrap-IsSmall v h = rw (wrap32_fits v (omega (arith, h), omega (arith, h))) h

positive_int-IsSmall : (s : List ℕ) → digits_value 0 s < 10000 → IsSmall (positive_int s)
unfolding positive_int
positive_int-IsSmall s below =
    let whole : ltb 9223372036854775807 (digits_value 0 s) ≡ false = ground arith in
    rw whole (wrap-IsSmall (pos (digits_value 0 s)) (omega (arith, below)))

negative_int-IsSmall : (s : List ℕ) → digits_value 0 s < 10000 → IsSmall (negative_int s)
unfolding negative_int
negative_int-IsSmall s below =
    let whole : ltb 9223372036854775808 (digits_value 0 s) ≡ false = ground arith in
    rw whole (wrap-IsSmall (sub_ℕ 0 (digits_value 0 s)) (ground (arith, below)))

digits_small : (s : List ℕ) → length s ≤ 4 → digits_value 0 s < 10000
digits_small s h = digits_value-top 4 1 0 s (omega arith) h

signed_int-IsSmall : (s : List ℕ) → length s ≤ 4 → IsSmall (signed_int s)
unfolding signed_int
signed_int-IsSmall [] h = omega arith
signed_int-IsSmall (c ∷ s) h = elim (Bool-cases (c == 45)) [
  | inl minus ↦ rw minus (negative_int-IsSmall s (digits_small s (omega (arith, h))))
  | inr other ↦ elim (Bool-cases (c == 43)) [
    | inl plus ↦ rw (other, plus) (positive_int-IsSmall s (digits_small s (omega (arith, h))))
    | inr digit ↦ rw (other, digit) (positive_int-IsSmall (c ∷ s) (digits_small (c ∷ s) h))
  ]
]

-- A text of four bytes is a number of at most four digits.
pub atoi-IsSmall : (s : List ℕ) → length s ≤ 4 → IsSmall (atoi (c_string s))
unfolding atoi
atoi-IsSmall s h =
    signed_int-IsSmall (skip_spaces (c_string s))
      (omega (arith, h, length-c_string s, length-skip_spaces (c_string s)))
