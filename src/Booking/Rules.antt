-- ===== src/Booking/Rules.antt =====
-- The checks of the write server on a booking command, and the update of the counts: the part of
-- `handle_read` in HW1/server.c between the two reads of the record.
pub mod Laws
pub mod Overflow
use system_programming_hw.Common.{Bool, true, false, List, [], ◌∷◌, if◌then◌else◌}
use system_programming_hw.Common.Int.{ℤ, pos, ◌+ℤ◌, wrap32, ltb_ℤ}

-- `bookingState` of the record: food, concert, electronics.
abbrev pub Counts : Type 0
Counts = List ℤ

-- The first `for`: `total` runs over the sums of the counts and the changes up to each item, and
-- the loop breaks at the first that is above 15.
unfoldable pub within_limit : ℤ → Counts → List ℤ → Bool
within_limit total (b ∷ bs) (n ∷ ns) =
    let next = wrap32 (wrap32 (total +ℤ b) +ℤ n) in
    let rest = within_limit next bs ns in if ltb_ℤ (pos 15) next then false else rest
within_limit total _ _ = true

-- The second `for`: no item may fall below 0.
unfoldable pub none_negative : Counts → List ℤ → Bool
none_negative (b ∷ bs) (n ∷ ns) =
    let rest = none_negative bs ns in if ltb_ℤ (wrap32 (b +ℤ n)) (pos 0) then false else rest
none_negative _ _ = true

-- The third `for`: `bookingState[i] += nums[i]`.
unfoldable pub add_all : Counts → List ℤ → Counts
add_all (b ∷ bs) (n ∷ ns) = wrap32 (b +ℤ n) ∷ add_all bs ns
add_all bs _ = bs

-- Return 2, return 3, or the counts that are written back.
pub data Verdict : Type 0 where
  too_many : Verdict
  below_zero : Verdict
  booked : Counts → Verdict

unfoldable pub check_booking : Counts → List ℤ → Verdict
unfolding within_limit none_negative add_all ◌+ℤ◌ wrap32
check_booking counts nums =
    if within_limit (pos 0) counts nums
    then (if none_negative counts nums then booked (add_all counts nums) else below_zero)
    else too_many
