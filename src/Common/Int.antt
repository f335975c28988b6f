-- ===== src/Common/Int.antt =====
-- Signed integers over the native numbers, and the wrap-around of a 32-bit C `int`.
-- Signed overflow is undefined in C; `wrap32` is the two's complement result that the compiled
-- code has where the compiler adds no assumption of its own.
use system_programming_hw.Common.{
  ℕ, suc, ◌+◌, ◌-◌, ◌*◌, ◌/◌, ◌%◌, ◌≤◌, ◌<◌, ◌≡◌, Bool, arith, ltb, leb, if◌then◌else◌,
}

-- `negsuc n` is -(n + 1).
pub data ℤ : Type 0 where
  pos : ℕ → ℤ
  negsuc : ℕ → ℤ

abbrev pub pos_part : ℤ → ℕ
pos_part (pos n) = n
pos_part (negsuc n) = 0

abbrev pub neg_part : ℤ → ℕ
neg_part (pos n) = 0
neg_part (negsuc n) = suc n

-- a - b, as an integer.
abbrev pub sub_ℕ : ℕ → ℕ → ℤ
sub_ℕ a b = if leb b a then pos (a - b) else negsuc (b - a - 1)

infixl 65 ◌+ℤ◌ ◌-ℤ◌
infixl 70 ◌*ℤ◌
infix 50 ◌≤ℤ◌
unfoldable pub ◌+ℤ◌ : ℤ → ℤ → ℤ
a +ℤ b = sub_ℕ (pos_part a + pos_part b) (neg_part a + neg_part b)

unfoldable pub ◌-ℤ◌ : ℤ → ℤ → ℤ
a -ℤ b = sub_ℕ (pos_part a + neg_part b) (neg_part a + pos_part b)

unfoldable pub ◌*ℤ◌ : ℤ → ℤ → ℤ
a *ℤ b =
    sub_ℕ (pos_part a * pos_part b + neg_part a * neg_part b)
      (pos_part a * neg_part b + neg_part a * pos_part b)

-- Division by 2, towards zero.
abbrev pub half : ℤ → ℤ
half (pos n) = pos (n / 2)
half (negsuc n) = sub_ℕ 0 ((n + 1) / 2)

abbrev pub ◌≤ℤ◌ : ℤ → ℤ → Type 0
a ≤ℤ b = pos_part a + neg_part b ≤ pos_part b + neg_part a

abbrev pub ltb_ℤ : ℤ → ℤ → Bool
ltb_ℤ a b = ltb (pos_part a + neg_part b) (pos_part b + neg_part a)

pub +ℤ_parts :
    (a b : ℤ)
    → pos_part (a +ℤ b) + neg_part a + neg_part b ≡ neg_part (a +ℤ b) + pos_part a + pos_part b
unfolding ◌+ℤ◌
+ℤ_parts a b = ground arith

pub -ℤ_parts :
    (a b : ℤ)
    → pos_part (a -ℤ b) + neg_part a + pos_part b ≡ neg_part (a -ℤ b) + pos_part a + neg_part b
unfolding ◌-ℤ◌
-ℤ_parts a b = ground arith

pub eq_of_parts : (a b : ℤ) → pos_part a + neg_part b ≡ pos_part b + neg_part a → a ≡ b
eq_of_parts a b h = ground arith

pub parts_disjoint : (a : ℤ) → pos_part a * neg_part a ≡ 0
parts_disjoint a = ground arith

pub ruleset int_laws = (arith, +ℤ_parts, -ℤ_parts, eq_of_parts)

-- The values of an `int`: from -2^31 to 2^31 - 1.
abbrev pub Int32 : ℤ → Type 0
Int32 a = (pos_part a < 2147483648) × (neg_part a ≤ 2147483648)

-- The integer that the low 32 bits `u` stand for.
abbrev pub signed : ℕ → ℤ
signed u = if ltb u 2147483648 then pos u else negsuc (4294967295 - u)

unfoldable pub wrap32 : ℤ → ℤ
wrap32 a = signed ((pos_part a + (4294967296 - neg_part a % 4294967296)) % 4294967296)

pub wrap32-Int32 : (a : ℤ) → Int32 (wrap32 a)
unfolding wrap32
wrap32-Int32 a = ground arith

-- Within the range of `int` nothing wraps.
pub wrap32_fits : (a : ℤ) → Int32 a → wrap32 a ≡ a
unfolding wrap32
wrap32_fits a h = ground arith

pub +ℤ_bounds :
    (a b : ℤ)
    → (pos_part (a +ℤ b) ≤ pos_part a + pos_part b) × (neg_part (a +ℤ b) ≤ neg_part a + neg_part b)
unfolding ◌+ℤ◌
+ℤ_bounds a b = ground arith

-- A sum of small enough integers does not wrap.
pub wrap32-add :
    (a b : ℤ)
    → pos_part a + pos_part b < 2147483648
    → neg_part a + neg_part b ≤ 2147483648
    → wrap32 (a +ℤ b) ≡ a +ℤ b
wrap32-add a b h k =
    wrap32_fits (a +ℤ b) (omega (arith, +ℤ_bounds a b), omega (arith, +ℤ_bounds a b))
