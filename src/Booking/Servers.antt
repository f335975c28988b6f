-- ===== src/Booking/Servers.antt =====
-- Several processes of HW1/server.c at work on one record file: read servers and write servers,
-- which share the file and the record locks that the operating system keeps (`fcntl`).
pub mod Locking
pub mod Views
pub mod Readers
pub mod Writers
pub mod Exclusion
pub mod Race
mod Table
mod Tests
use system_programming_hw.Common.{
  ℕ, zero, suc, ◌<◌, ◌≡◌, ◌≢◌, Bool, true, false, none, some, update,
}
use system_programming_hw.Booking.Session.{
  Record, LockType, f_rdlck, f_wrlck, f_unlck, Kernel, Input, Server, returns,
}
use system_programming_hw.Booking.Writer.Turns as WriterTurns
use system_programming_hw.Booking.Reader.Turns as ReaderTurns

-- Two processes may hold read locks on one record, and a write lock only alone.
abbrev pub conflicts : LockType → LockType → Bool
conflicts f_unlck b = false
conflicts f_rdlck f_wrlck = true
conflicts f_rdlck f_rdlck = false
conflicts f_rdlck f_unlck = false
conflicts f_wrlck f_unlck = false
conflicts f_wrlck f_rdlck = true
conflicts f_wrlck f_wrlck = true

-- The record locks as POSIX documents `fcntl`: each process has at most one lock on a record.
-- `F_GETLK` answers `F_UNLCK` where no other process is in the way of the lock asked for, and the
-- type of a lock that is in the way otherwise; `F_SETLK` sets the lock in the first case, and does
-- nothing in the second.
pub record Fcntl : Type 1 where
  pub Locks : Type 0
  pub held : Locks → ℕ → ℕ → LockType
  pub getlk : Locks → ℕ → ℕ → LockType → LockType
  pub setlk : Locks → ℕ → ℕ → LockType → Locks
  pub getlk_free :
      (l : Locks) (p k : ℕ) (t : LockType)
      → getlk l p k t ≡ f_unlck
      → (q : ℕ) → p ≢ q
      → conflicts (held l q k) t ≡ false
  pub getlk_holder :
      (l : Locks) (p k : ℕ) (t : LockType)
      → getlk l p k t ≢ f_unlck
      → (q : ℕ) × (held l q k ≡ getlk l p k t) × (conflicts (held l q k) t ≡ true)
  pub setlk_grant :
      (l : Locks) (p k : ℕ) (t : LockType) → getlk l p k t ≡ f_unlck → held (setlk l p k t) p k ≡ t
  pub setlk_refuse :
      (l : Locks) (p k : ℕ) (t : LockType) → getlk l p k t ≢ f_unlck → setlk l p k t ≡ l
  pub setlk_process :
      (l : Locks) (p k : ℕ) (t : LockType) (q j : ℕ) → p ≢ q → held (setlk l p k t) q j ≡ held l q j
  pub setlk_record :
      (l : Locks) (p k : ℕ) (t : LockType) (q j : ℕ) → k ≢ j → held (setlk l p k t) q j ≡ held l q j

-- `fcntl` as process `p` calls it.
abbrev pub kernel_of : Fcntl → ℕ → Kernel
kernel_of fcntl p = record {
  Locks = fcntl.Locks;
  getlk = λ l k t. fcntl.getlk l p k t;
  setlk = λ l k t. fcntl.setlk l p k t;
}

-- The two builds of the program.
pub data Build : Type 0 where
  read_server : Build
  write_server : Build

-- The processes with what each has for itself, and what they share. In `own` the locks and the
-- file are of no account.
pub record World (L : Type 0) : Type 0 where
  pub own : ℕ → Server L
  pub locks : L
  pub records : ℕ → Record

module _ {L : Type 0} where
  -- The state as process `p` finds it.
  abbrev pub seen : World L → ℕ → Server L
  seen w p = record (w.own p) { locks = w.locks; records = w.records }

  -- Process `p` has moved to state `s`.
  abbrev pub put : World L → ℕ → Server L → World L
  put w p s = record { own = update w.own p s; locks = s.locks; records = s.records }

module _ (fcntl : Fcntl) (build : ℕ → Build) where
  -- One process accepts a connection, or takes a turn for an open one. A turn is not interrupted.
  pub data Step (w : World fcntl.Locks) : World fcntl.Locks → Type 0 where
    read_accept :
        (p i : ℕ)
        → build p ≡ read_server
        → i < 1024
        → ((w.own p).requests i).conn_fd ≡ none
        → Step w (put w p (ReaderTurns.connect i (seen w p)))
    read_input :
        (p i : ℕ) (given : Input) {fd : ℕ} {t : Server fcntl.Locks}
        → build p ≡ read_server
        → i < 1024
        → ((w.own p).requests i).conn_fd ≡ some fd
        → ReaderTurns.turn (kernel_of fcntl p) i given (seen w p) ≡ returns t
        → Step w (put w p t)
    write_accept :
        (p i : ℕ)
        → build p ≡ write_server
        → ((w.own p).requests i).conn_fd ≡ none
        → Step w (put w p (WriterTurns.connect i (seen w p)))
    write_input :
        (p i : ℕ) (given : Input) {fd : ℕ} {t : Server fcntl.Locks}
        → build p ≡ write_server
        → ((w.own p).requests i).conn_fd ≡ some fd
        → WriterTurns.turn (kernel_of fcntl p) i given (seen w p) ≡ returns t
        → Step w (put w p t)

  -- Every process has just started, and there is no lock on the file.
  abbrev pub begun : (ℕ → Record) → fcntl.Locks → World fcntl.Locks
  begun file l = record {
    own = λ p. WriterTurns.started (kernel_of fcntl p) file l;
    locks = l;
    records = file;
  }

  -- The states after `n` steps of all processes together.
  pub data Reach (file : ℕ → Record) (l : fcntl.Locks) : ℕ → World fcntl.Locks → Type 0 where
    start : ((p k : ℕ) → fcntl.held l p k ≡ f_unlck) → Reach file l zero (begun file l)
    later : {n : ℕ} {w v : World fcntl.Locks} → Reach file l n w → Step w v → Reach file l (suc n) v
