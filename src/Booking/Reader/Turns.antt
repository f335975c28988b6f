-- ===== src/Booking/Reader/Turns.antt =====
-- `main` of HW1/server.c under READ_SERVER: a new connection, and a connection with input.
use system_programming_hw.Common.{
  ℕ, zero, suc, ◌<◌, ◌≡◌, true, false, List, none, some, if◌then◌else◌,
}
use system_programming_hw.Text.{codes, same_text}
use system_programming_hw.Booking.Session.{
  Record, Kernel, Input, Ret, bad_read, rejected, fine, over_limit, negative, locked, interrupted,
  Server, send, set_request, hang_up, Outcome, exits, stray, returns,
}
use system_programming_hw.Booking.Writer.Turns.{greeting, give_up, started}
use system_programming_hw.Booking.Reader.{handle_read}

abbrev pub exit_prompt : List ℕ
exit_prompt = codes "(Type Exit to leave...)\n"

module _ {L : Type 0} where
  -- A new connection: `accept` has returned the descriptor `i`.
  unfoldable pub connect : ℕ → Server L → Server L
  connect i s =
      send (some i) greeting
        (set_request i (record (s.requests i) { conn_fd = some i; done = false }) s)

  -- The end of the loop's body, which runs also after the connection has been given up.
  unfoldable pub after_read : ℕ → Server L → Server L
  unfolding hang_up same_text
  after_read i s =
      let r = s.requests i in
      if same_text r.buf (codes "Exit")
      then hang_up i s
      else set_request i (record r { done = true })
          (send r.conn_fd exit_prompt (send r.conn_fd r.buf s))

  -- What follows the call of `handle_read`, by its return value.
  unfoldable pub answer : ℕ → Ret → Server L → Server L
  unfolding after_read give_up
  answer i bad_read s = s
  answer i fine s = after_read i s
  answer i rejected s =
      after_read i (give_up i (codes "[Error] Operation failed. Please try again.\n") s)
  answer i over_limit s =
      after_read i
        (give_up i (codes "[Error] Sorry, but you cannot book more than 15 items in total.\n") s)
  answer i negative s =
      after_read i (give_up i (codes "[Error] Sorry, but you cannot book less than 0 items.\n") s)
  answer i locked s = after_read i (give_up i (codes "Locked.\n") s)
  answer i interrupted s = after_read i (hang_up i s)

module _ (kernel : Kernel) where
  -- A turn of the loop for a connection with input.
  unfoldable pub turn : ℕ → Input → Server kernel.Locks → Outcome (Server kernel.Locks)
  unfolding handle_read answer
  turn i input s = elim (handle_read kernel i input s) [
    | exits ↦ exits
    | stray ↦ stray
    | returns (ret, s₁) ↦ returns (answer i ret s₁)
  ]

  -- The server as it runs. The descriptors of connections are below MAXFD, which is 1024.
  pub data Step (s : Server kernel.Locks) : Server kernel.Locks → Type 0 where
    accept : (i : ℕ) → i < 1024 → (s.requests i).conn_fd ≡ none → Step s (connect i s)
    input :
        (i : ℕ) (given : Input) {fd : ℕ} {t : Server kernel.Locks}
        → i < 1024
        → (s.requests i).conn_fd ≡ some fd
        → turn i given s ≡ returns t
        → Step s t
    foreign :
        (l : kernel.Locks) (records : ℕ → Record)
        → Step s (record s { locks = l; records = records })

  -- The states after `n` steps.
  pub data Reach (file : ℕ → Record) (l : kernel.Locks) : ℕ → Server kernel.Locks → Type 0 where
    start : Reach file l zero (started kernel file l)
    later :
        {n : ℕ} {s t : Server kernel.Locks} → Reach file l n s → Step s t → Reach file l (suc n) t
