-- ===== src/Booking/Parse.antt =====
-- `myatoi` of HW1/server.c: three numbers out of a booking command.
pub mod RoundTrip
use system_programming_hw.Common.{
  ℕ, zero, suc, ◌+◌, ◌-◌, Bool, List, [], ◌∷◌, ◌++◌, Option, none, some, leb, ◌==◌, if◌then◌else◌,
  length,
}
use system_programming_hw.Common.Int.{ℤ, pos, negsuc, ◌+ℤ◌, ◌*ℤ◌, wrap32, ltb_ℤ}
use system_programming_hw.Text.{isalpha, isdigit}

abbrev pub is_zero : ℤ → Bool
is_zero (pos n) = n == 0
is_zero (negsuc n) = Bool.false

-- The `for` over the bytes of `buf`: `nums` holds what has been stored, so `idx` is its length.
-- `none` is a return of 0 (also at the end of the text), `some nums` a return of 1.
unfoldable pub parse_loop : List ℕ → ℤ → ℤ → List ℤ → Option (List ℤ)
parse_loop [] niga sum nums = none
parse_loop (c ∷ s) niga sum nums =
    let minus = (if is_zero sum then parse_loop s (negsuc 0) sum nums else none) in
    let digit = parse_loop s niga (wrap32 (wrap32 (sum *ℤ pos 10) +ℤ pos (c - 48))) nums in
    let stored = nums ++ wrap32 (sum *ℤ niga) ∷ [] in
    let next = parse_loop s (pos 1) (pos 0) stored in
    let separator = (if leb 3 (length stored) then some stored else next) in
    if isalpha c then none else if c == 45 then minus else if isdigit c then digit else separator

unfoldable pub myatoi : List ℕ → Option (List ℤ)
unfolding parse_loop ◌+ℤ◌ ◌*ℤ◌ wrap32
myatoi buf = parse_loop buf (pos 1) (pos 0) []
