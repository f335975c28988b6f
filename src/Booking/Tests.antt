-- ===== src/Booking/Tests.antt =====
-- Runs of the booking server of HW1/server.c, and its theorems at concrete inputs.
use system_programming_hw.Common.{ℕ, ◌≡◌, refl, ◌↔◌, List, [], ◌∷◌, ◌+◌, none, some, arith}
use system_programming_hw.Common.Int.{ℤ, pos, negsuc, ◌+ℤ◌}
use system_programming_hw.Text.{codes, c_string, atoi, starts_with, contains}
use system_programming_hw.Booking.Parse.{myatoi}
use system_programming_hw.Booking.Rules.{Counts, booked, too_many, check_booking}
use system_programming_hw.Booking.Rules.Laws.{
  IsValid, IsModestCommand, changed, check_booking-IsValid_iff,
}
use system_programming_hw.Booking.Rules.Overflow.{huge, check_booking-overflow}
use system_programming_hw.Booking.Session.{
  Record, LockType, f_unlck, Kernel, received, Server, locked, Outcome, exits, stray, returns,
  overruns, slot, set_request,
}
use system_programming_hw.Booking.Writer.{handle_read}
use system_programming_hw.Booking.Writer.Turns.{
  turn, connect, accept, input, started, Reach, start, later,
}
use system_programming_hw.Booking.Writer.Inv.{Inv}
use system_programming_hw.Booking.Writer.Exclusion.{mutual_exclusion, Reach-Inv}
use system_programming_hw.Booking.Writer.Leak.{done, disconnect_leaks}
use system_programming_hw.Booking.Writer.File.{FileChange, turn-FileChange, AllValid, turn-AllValid}

parse_runs : myatoi (codes "5 -3 0\r\n") ≡ some (pos 5 ∷ negsuc 2 ∷ pos 0 ∷ [])
unfolding myatoi
parse_runs = refl

parse_letters : myatoi (codes "5 a 0\r\n") ≡ none
unfolding myatoi
parse_letters = refl

abbrev some_counts : Counts
some_counts = pos 3 ∷ pos 4 ∷ pos 0 ∷ []

some_counts-IsValid : IsValid some_counts
unfolding ◌+ℤ◌
some_counts-IsValid = record { three = refl; nonneg = omega arith; limited = omega arith }

-- A partial sum above 15 is refused as too many, although the whole is 11 and an item is negative.
early_refusal :
    check_booking (pos 0 ∷ pos 0 ∷ pos 0 ∷ []) (pos 16 ∷ negsuc 4 ∷ pos 0 ∷ []) ≡ too_many
unfolding check_booking
early_refusal = refl

check_booking-IsValid_iff_example :
    (check_booking some_counts (pos 5 ∷ negsuc 2 ∷ pos 0 ∷ [])
      ≡ booked (pos 8 ∷ pos 1 ∷ pos 0 ∷ []))
    ↔ ((◌≡◌ {A = Counts}
          (pos 8 ∷ pos 1 ∷ pos 0 ∷ [])
          (changed some_counts (pos 5 ∷ negsuc 2 ∷ pos 0 ∷ [])))
        × IsValid (pos 8 ∷ pos 1 ∷ pos 0 ∷ []))
check_booking-IsValid_iff_example =
    check_booking-IsValid_iff some_counts (pos 5 ∷ negsuc 2 ∷ pos 0 ∷ [])
      (pos 8 ∷ pos 1 ∷ pos 0 ∷ []) some_counts-IsValid
      (record { three = refl; modest = omega arith })

check_booking-overflow_example :
    (check_booking (pos 0 ∷ pos 0 ∷ pos 0 ∷ []) (huge 2147483640) ≡ booked (huge 2147483640))
    × (¬ IsValid (huge 2147483640))
check_booking-overflow_example = check_booking-overflow 2147483640 (omega arith) (omega arith)

-- A table of the locks of other processes.
abbrev table : Kernel
table = record { Locks = ℕ → LockType; getlk = λ l k type. l k; setlk = λ l k type. l }

abbrev Table : Type 0
Table = ℕ → LockType

abbrev result : Server Table → Outcome (Server Table) → Server Table
result s exits = s
result s stray = s
result s (returns t) = t

abbrev empty_file : ℕ → Record
empty_file k = record { id = pos (902001 + k); booking_state = some_counts }

abbrev nobody : Table
nobody k = f_unlck

abbrev id_text : List ℕ
id_text = codes "902003\r\n"

abbrev first : Server Table
first = connect 5 (connect 4 (started table empty_file nobody))

unfoldable second : Server Table
unfolding turn connect atoi slot contains starts_with c_string overruns
second = result first (turn table 4 (received id_text) first)

unfoldable third : Server Table
unfolding second turn
third = result second (turn table 4 (received []) second)

second-Reach : Reach table empty_file nobody second
unfolding second connect
second-Reach =
    later (later (later start (accept 4 refl)) (accept 5 refl))
      (input 4 (received id_text) {fd = 4} refl refl)

mutual_exclusion_example : ◌≡◌ {A = ℕ} 4 4
unfolding second
mutual_exclusion_example = mutual_exclusion table second-Reach 4 4 2 refl refl refl refl

Reach-Inv_example : Inv second
Reach-Inv_example = Reach-Inv table second-Reach

disconnect_leaks_example :
    handle_read table 5 (received id_text) third
    ≡ returns (locked, set_request 5 (record (third.requests 5) { id = pos 902003 }) third)
unfolding third handle_read
disconnect_leaks_example =
    disconnect_leaks table {fd = 4} 4 2 second-Reach refl refl refl done 5 57 (codes "02003\r\n")
      refl refl refl refl

abbrev command : List ℕ
command = codes "5 -3 0\r\n"

unfoldable booked_state : Server Table
unfolding second myatoi check_booking
booked_state = result second (turn table 4 (received command) second)

booked_counts : (booked_state.records 2).booking_state ≡ pos 8 ∷ pos 1 ∷ pos 0 ∷ []
unfolding booked_state
booked_counts = refl

turn-FileChange_example : FileChange second.records (second.requests 4) command booked_state.records
unfolding booked_state
turn-FileChange_example = turn-FileChange table 4 4 (received command) second booked_state refl refl

command-modest : (nums : List ℤ) → myatoi command ≡ some nums → IsModestCommand nums
unfolding myatoi
command-modest nums e =
    let q : pos 5 ∷ negsuc 2 ∷ pos 0 ∷ [] ≡ nums = cc in
    rw (← q) (record { three = refl; modest = omega arith })

turn-AllValid_example : AllValid booked_state.records
unfolding booked_state
turn-AllValid_example =
    turn-AllValid table 4 4 (received command) second booked_state refl refl
      (λ k. some_counts-IsValid) command-modest
