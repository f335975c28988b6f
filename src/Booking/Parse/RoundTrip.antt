-- ===== src/Booking/Parse/RoundTrip.antt =====
-- What `myatoi` reads back of printed numbers, and what it can return.
use system_programming_hw.Common.{
  ℕ, ◌+◌, ◌-◌, ◌<◌, ◌≡◌, refl, if◌then◌else◌, false, List, [], ◌∷◌, ◌++◌, Option, some, arith,
  length, length-append, All, ◌==◌, leb,
}
use system_programming_hw.Common.Int.{
  ℤ, pos, negsuc, pos_part, neg_part, ◌+ℤ◌, ◌*ℤ◌, wrap32, Int32, wrap32-Int32,
}
use system_programming_hw.Text.{isalpha, isdigit, codes}
use system_programming_hw.Booking.Parse.{parse_loop, myatoi}

runs : myatoi (codes "5 -3 0\r\n") ≡ some (pos 5 ∷ negsuc 2 ∷ pos 0 ∷ [])
unfolding myatoi
runs = refl

-- The magnitude and the sign with which `myatoi` reads a number.
abbrev magnitude : ℤ → ℕ
magnitude v = pos_part v + neg_part v

abbrev sign : ℤ → ℤ
sign (pos n) = pos 1
sign (negsuc n) = negsuc 0

-- The symmetric range of `int`: all but -2^31.
abbrev pub IsSymmetric : ℤ → Type 0
IsSymmetric v = magnitude v < 2147483648

-- A byte that ends a number.
abbrev pub IsSeparator : ℕ → Type 0
IsSeparator c = (isalpha c ≡ false) × ((c == 45) ≡ false) × (isdigit c ≡ false)

-- What the separator does once `v` has been stored.
abbrev after : List ℕ → List ℤ → Option (List ℤ)
after rest stored =
    if leb 3 (length stored) then some stored else parse_loop rest (pos 1) (pos 0) stored

-- Three numbers, each of them an `int`.
abbrev pub IsCommand : List ℤ → Type 0
IsCommand nums = (length nums ≡ 3) × All Int32 nums

abbrev Partial : List ℤ → Type 0
Partial nums = (length nums < 3) × All Int32 nums

Stored : (nums : List ℤ) (v : ℤ) → All Int32 nums → All Int32 (nums ++ wrap32 v ∷ [])
Stored [] v h = (wrap32-Int32 v, tt)
Stored (n ∷ nums) v h = (h.0, Stored nums v h.1)

parse_loop-IsCommand :
    (s : List ℕ) (niga sum : ℤ) (nums : List ℤ) {out : List ℤ}
    → Partial nums
    → parse_loop s niga sum nums ≡ some out
    → IsCommand out
unfolding parse_loop
parse_loop-IsCommand [] niga sum nums p e = cc
parse_loop-IsCommand (c ∷ s) niga sum nums {out} p e =
    let stored = nums ++ wrap32 (sum *ℤ niga) ∷ [] in
    let digit = wrap32 (wrap32 (sum *ℤ pos 10) +ℤ pos (c - 48)) in
    ground (
      arith,
      length-append nums (wrap32 (sum *ℤ niga) ∷ []),
      Stored nums (sum *ℤ niga) p.1,
      parse_loop-IsCommand s (negsuc 0) sum nums {out = out} p,
      parse_loop-IsCommand s niga digit nums {out = out} p,
      parse_loop-IsCommand s (pos 1) (pos 0) stored {out = out},
    )

-- Whatever `myatoi` accepts is three numbers, each within the range of `int`.
pub myatoi-IsCommand : (buf : List ℕ) {nums : List ℤ} → myatoi buf ≡ some nums → IsCommand nums
unfolding myatoi
myatoi-IsCommand buf e = parse_loop-IsCommand buf (pos 1) (pos 0) [] (omega arith, tt) e
