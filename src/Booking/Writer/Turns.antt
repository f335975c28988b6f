-- ===== src/Booking/Writer/Turns.antt =====
-- `main` of HW1/server.c under WRITE_SERVER: a new connection, and a connection with input.
use system_programming_hw.Common.{ℕ, ◌≡◌, true, false, List, [], ◌++◌, none, some, if◌then◌else◌}
use system_programming_hw.Common.Int.{ℤ, pos}
use system_programming_hw.Text.{codes, show_int}
use system_programming_hw.Booking.Session.{
  Record, Kernel, Input, Ret, bad_read, rejected, fine, over_limit, negative, locked, interrupted,
  Server, send, set_request, hang_up, Outcome, exits, stray, returns,
}
use system_programming_hw.Booking.Writer.{handle_read}

abbrev pub greeting : List ℕ
greeting = codes "Please enter your id (to check your booking state):\n"

abbrev pub prompt : List ℕ
prompt =
    codes
      "Please input your booking command. (Food, Concert, Electronics. Positive/negative value increases/decreases the booking amount.):\n"

-- "Bookings for user 902001 are updated, the new booking state is:"
abbrev pub updated : ℤ → List ℕ
unfolding show_int
updated id =
    codes "Bookings for user " ++ (show_int id ++ codes " are updated, the new booking state is:\n")

module _ {L : Type 0} where
  -- A new connection: `accept` has returned the descriptor `i`.
  unfoldable pub connect : ℕ → Server L → Server L
  connect i s = send (some i) greeting (
      set_request i
        (record (s.requests i) { conn_fd = some i; done = false; wait_for_write = true }) s)

  -- The end of the loop's body, which runs also after the connection has been given up.
  unfoldable pub after_read : ℕ → Server L → Server L
  unfolding hang_up
  after_read i s =
      let r = s.requests i in
      if r.wait_for_write
      then set_request i (record r { wait_for_write = false })
          (send r.conn_fd prompt (send r.conn_fd r.buf s))
      else hang_up i (send r.conn_fd r.buf (send r.conn_fd (updated r.id) s))

  -- An error message, if there is one for this return value, and the end of the connection.
  unfoldable pub give_up : ℕ → List ℕ → Server L → Server L
  unfolding hang_up
  give_up i text s = hang_up i (send (s.requests i).conn_fd text s)

  -- What follows the call of `handle_read`, by its return value.
  unfoldable pub answer : ℕ → Ret → Server L → Server L
  unfolding after_read give_up
  answer i bad_read s = s
  answer i fine s = after_read i s
  answer i rejected s =
      after_read i (give_up i (codes "[Error] Operation failed. Please try again.\n") s)
  answer i over_limit s =
      after_read i
        (give_up i (codes "[Error] Sorry, but you cannot book more than 15 items in total.\n") s)
  answer i negative s =
      after_read i (give_up i (codes "[Error] Sorry, but you cannot book less than 0 items.\n") s)
  answer i locked s = after_read i (give_up i (codes "Locked.\n") s)
  answer i interrupted s = after_read i (hang_up i s)

module _ (kernel : Kernel) where
  -- A turn of the loop for a connection with input.
  unfoldable pub turn : ℕ → Input → Server kernel.Locks → Outcome (Server kernel.Locks)
  unfolding handle_read answer
  turn i input s = elim (handle_read kernel i input s) [
    | exits ↦ exits
    | stray ↦ stray
    | returns (ret, s₁) ↦ returns (answer i ret s₁)
  ]

  -- The server as it runs: new connections, turns for open connections, and changes that other
  -- processes make to the locks and to the record file.
  pub data Step (s : Server kernel.Locks) : Server kernel.Locks → Type 0 where
    accept : (i : ℕ) → (s.requests i).conn_fd ≡ none → Step s (connect i s)
    input :
        (i : ℕ) (given : Input) {fd : ℕ} {t : Server kernel.Locks}
        → (s.requests i).conn_fd ≡ some fd
        → turn i given s ≡ returns t
        → Step s t
    foreign :
        (l : kernel.Locks) (records : ℕ → Record)
        → Step s (record s { locks = l; records = records })

  -- `init_server`: no connection is open, nothing is locked, the file is as it was found.
  abbrev pub started : (ℕ → Record) → kernel.Locks → Server kernel.Locks
  started file l = record {
    requests =
        λ _. record { conn_fd = none; buf = []; id = pos 0; done = false; wait_for_write = false };
    self_lock = λ _. pos 0;
    records = file;
    locks = l;
    output = [];
  }

  pub data Reach (file : ℕ → Record) (l : kernel.Locks) : Server kernel.Locks → Type 0 where
    start : Reach file l (started file l)
    later : {s t : Server kernel.Locks} → Reach file l s → Step s t → Reach file l t
