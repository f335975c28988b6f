-- ===== src/Booking/Rules/Overflow.antt =====
-- What 32-bit sums do to the limit of 15 items in HW1/server.c.
use system_programming_hw.Common.{ℕ, ◌≤◌, ◌<◌, ◌≡◌, List, [], ◌∷◌, arith}
use system_programming_hw.Common.Int.{ℤ, pos, int_laws}
use system_programming_hw.Booking.Rules.{booked, check_booking}
use system_programming_hw.Booking.Rules.Laws.{IsValid}

abbrev pub huge : ℕ → List ℤ
huge x = pos 15 ∷ pos x ∷ pos 0 ∷ []

huge-booked :
    (x : ℕ)
    → 2147483633 ≤ x
    → x < 2147483648
    → check_booking (pos 0 ∷ pos 0 ∷ pos 0 ∷ []) (huge x) ≡ booked (huge x)
unfolding check_booking
huge-booked x h k = ground arith

-- On an empty record, a command for 15 items of the first kind and from 2^31 - 15 to 2^31 - 1 of
-- the second wraps the running total below zero: it is accepted as it stands, and the record that
-- it leaves is not valid.
pub check_booking-overflow :
    (x : ℕ)
    → 2147483633 ≤ x
    → x < 2147483648
    → (check_booking (pos 0 ∷ pos 0 ∷ pos 0 ∷ []) (huge x) ≡ booked (huge x)) × (¬ IsValid (huge x))
check_booking-overflow x h k = (huge-booked x h k, λ v. omega (int_laws, v.limited))
