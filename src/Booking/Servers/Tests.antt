-- ===== src/Booking/Servers/Tests.antt =====
-- A write server and a read server at work on one file, and the theorems on servers together at
-- concrete inputs.
use system_programming_hw.Common.{ℕ, zero, suc, ◌<◌, ◌≡◌, ◌≢◌, refl, List, [], ◌∷◌, arith, some}
use system_programming_hw.Common.Int.{pos}
use system_programming_hw.Text.{codes, c_string, atoi, starts_with, contains}
use system_programming_hw.Booking.Session.{
  Record, f_wrlck, received, Server, Outcome, exits, stray, returns, overruns, slot, show_items,
}
use system_programming_hw.Booking.Writer.Turns as WriterTurns
use system_programming_hw.Booking.Writer.Inv.{holds}
use system_programming_hw.Booking.Reader.Turns as ReaderTurns
use system_programming_hw.Booking.Reader.Answers as ReaderAnswers
use system_programming_hw.Booking.Servers.{
  kernel_of, Build, read_server, write_server, World, seen, put, begun, Reach, start, later,
  read_accept, write_accept, write_input,
}
use system_programming_hw.Booking.Servers.Exclusion.{Inv, servers-Inv, record_exclusion}
use system_programming_hw.Booking.Servers.Race.{racing, race_unnoticed}
use system_programming_hw.Booking.Servers.Table.{Entry, table, held, getlk, setlk}

abbrev Locks : Type 0
Locks = List Entry

-- Process 0 is a write server, and every other a read server.
abbrev builds : ℕ → Build
builds zero = write_server
builds (suc p) = read_server

abbrev one_file : ℕ → Record
one_file k = record { id = pos k; booking_state = pos 1 ∷ pos 2 ∷ pos 3 ∷ [] }

abbrev after : Server Locks → Outcome (Server Locks) → Server Locks
after s exits = s
after s stray = s
after s (returns t) = t

abbrev id_text : List ℕ
id_text = codes "902003\r\n"

abbrev both_open : World Locks
both_open =
    let w =
      put (begun table builds one_file []) 0
        (WriterTurns.connect 4 (seen (begun table builds one_file []) 0)) in
    put w 1 (ReaderTurns.connect 5 (seen w 1))

unfoldable editing : World Locks
unfolding WriterTurns.turn WriterTurns.connect ReaderTurns.connect atoi slot contains starts_with
    c_string overruns getlk setlk
editing = put both_open 0 (
    after (seen both_open 0)
      (WriterTurns.turn (kernel_of table 0) 4 (received id_text) (seen both_open 0)))

editing_lock : held editing.locks 0 2 ≡ f_wrlck
unfolding editing held show_items
editing_lock = refl

editing-Reach : Reach table builds one_file [] 3 editing
unfolding editing show_items
editing-Reach =
    later
      (later (later (start (λ p k. refl)) (write_accept 0 4 refl refl))
        (read_accept 1 5 refl (omega arith) refl))
      (write_input 0 4 (received id_text) {fd = 4} refl refl refl)

servers-Inv_example : Inv table builds editing
servers-Inv_example = servers-Inv table builds (omega arith) editing-Reach

record_exclusion_example :
    (builds 1 ≡ write_server → (j : ℕ) → holds ((editing.own 1).requests j) ≢ some 2)
    × (builds 1 ≡ read_server
        → (j : ℕ) → j < 1024
        → ReaderAnswers.holds ((editing.own 1).requests j) ≢ some 2)
unfolding editing
record_exclusion_example =
    record_exclusion table builds (omega arith) editing-Reach 0 4 2 refl refl refl 1 (omega arith)

-- Process 1 has locked record 2 after the check of process 0.
abbrev taken : Locks
taken = record { owner = 1; place = 2; type = f_wrlck } ∷ []

abbrev raced : Server (Locks × Locks)
raced = record (WriterTurns.connect 4 (WriterTurns.started (racing table 0) one_file ([], taken))) {
  locks = ([], taken);
}

race_unnoticed_example :
    (t : Server (Locks × Locks)) × (WriterTurns.turn (racing table 0) 4 (received id_text) raced
      ≡ returns t)
    × (holds (t.requests 4) ≡ some 2)
    × (t.locks.1 ≡ taken)
unfolding WriterTurns.connect atoi slot contains c_string overruns held getlk
race_unnoticed_example =
    race_unnoticed table 0 raced 4 2 1 4 57 (codes "02003\r\n") (omega arith) refl refl refl refl
      refl refl refl refl
