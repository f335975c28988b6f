-- ===== src/Booking/Reader/Tests.antt =====
-- Runs of the read server of HW1/server.c, and its theorems at concrete inputs.
use system_programming_hw.Common.{ℕ, ◌≡◌, ◌≢◌, refl, List, [], ◌∷◌, arith, ◌==◌, if◌then◌else◌}
use system_programming_hw.Common.Int.{pos, wrap32, ◌+ℤ◌, ◌-ℤ◌}
use system_programming_hw.Text.{codes, c_string, atoi, starts_with, contains}
use system_programming_hw.Booking.Session.{
  Record, LockType, f_unlck, f_rdlck, Kernel, received, Server, Outcome, exits, stray, returns,
  overruns, slot, show_items,
}
use system_programming_hw.Booking.Writer.Turns.{started}
use system_programming_hw.Booking.Reader.Turns.{turn, connect, accept, input, Reach, start, later}
use system_programming_hw.Booking.Reader.Readers.{Inv, reader-Inv}
use system_programming_hw.Booking.Reader.Locks.{
  LockChange, IsFree, turn-LockChange, done, more, reader_leaks,
}

-- The locks as one process sees its own: the last type set on each record.
abbrev own : Kernel
own = record {
  Locks = ℕ → LockType;
  getlk = λ l k type. f_unlck;
  setlk = λ l k type j. if k == j then type else l j;
}

abbrev Own : Type 0
Own = ℕ → LockType

abbrev after : Server Own → Outcome (Server Own) → Server Own
after s exits = s
after s stray = s
after s (returns t) = t

abbrev one_file : ℕ → Record
one_file k = record { id = pos k; booking_state = pos 1 ∷ pos 2 ∷ pos 3 ∷ [] }

abbrev unlocked : Own
unlocked k = f_unlck

abbrev id_text : List ℕ
id_text = codes "902003\r\n"

abbrev one_client : Server Own
one_client = connect 4 (started own one_file unlocked)

unfoldable reading : Server Own
unfolding turn connect atoi slot contains starts_with c_string overruns
reading = after one_client (turn own 4 (received id_text) one_client)

unfoldable left : Server Own
unfolding reading turn
left = after reading (turn own 4 (received (codes "Exit\r\n")) reading)

unfoldable dropped : Server Own
unfolding reading turn
dropped = after reading (turn own 4 (received []) reading)

reading_lock : reading.locks 2 ≡ f_rdlck
unfolding reading show_items
reading_lock = refl

left_lock : left.locks 2 ≡ f_unlck
unfolding left wrap32 ◌+ℤ◌ ◌-ℤ◌ show_items
left_lock = refl

dropped_lock : dropped.locks 2 ≡ f_rdlck
unfolding dropped show_items
dropped_lock = refl

reading-Reach : Reach own one_file unlocked 2 reading
unfolding reading connect
reading-Reach =
    later (later start (accept 4 (omega arith) refl))
      (input 4 (received id_text) {fd = 4} (omega arith) refl refl)

reader-Inv_example : Inv 2 reading
reader-Inv_example = reader-Inv own (omega arith) reading-Reach

turn-LockChange_example : LockChange own (IsFree own left) reading left
unfolding left show_items
turn-LockChange_example =
    turn-LockChange own {fd = 4} 4 (received (codes "Exit\r\n")) (omega arith) reading-Reach
      (omega arith) refl refl

unfoldable again : Server Own
unfolding dropped turn connect
again = after dropped (turn own 5 (received id_text) (connect 5 dropped))

reader_leaks_example : LockChange own (λ k. k ≢ 2) (connect 5 dropped) again
unfolding again show_items
reader_leaks_example =
    reader_leaks own {fd = 4} {fd' = 5} 4 2 (received []) reading-Reach (omega arith) refl refl refl
      refl (more done (accept 5 (omega arith) refl)) (omega arith) (omega arith) 5
      (received id_text) (omega arith) refl refl
