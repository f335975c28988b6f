-- ===== src/Booking/Session.antt =====
-- The data of HW1/server.c that both builds share: requests, records, locks, replies, and the
-- operations on one request.
use system_programming_hw.Common.{
  ℕ, Bool, false, List, [], ◌∷◌, ◌++◌, Option, none, some, ltb, leb, length, if◌then◌else◌, update,
}
use system_programming_hw.Common.Int.{ℤ, pos, negsuc, ◌-ℤ◌, wrap32}
use system_programming_hw.Text.{codes, c_string, show_int}
use system_programming_hw.Booking.Rules.{Counts}

-- `conn_fd` is `none` for -1; `wait_for_write` and `done` are the flags 1 and 0.
pub record Request : Type 0 where
  pub conn_fd : Option ℕ
  pub buf : List ℕ
  pub id : ℤ
  pub done : Bool
  pub wait_for_write : Bool

-- One entry of the file `bookingRecord`.
pub record Record : Type 0 where
  pub id : ℤ
  pub booking_state : Counts

pub data LockType : Type 0 where
  f_rdlck : LockType
  f_wrlck : LockType
  f_unlck : LockType

-- The record locks of the operating system on the record file, which all processes share:
-- `fcntl` with `F_GETLK`, which answers for one record and a wanted type, and with `F_SETLK`.
pub record Kernel : Type 1 where
  pub Locks : Type 0
  pub getlk : Locks → ℕ → LockType → LockType
  pub setlk : Locks → ℕ → LockType → Locks

-- What `read` on a connection gives: -1, or the bytes that came, none of them at end of file.
pub data Input : Type 0 where
  failed : Input
  received : List ℕ → Input

-- The local `buf` of `handle_read` has 512 bytes, and `read` may fill them all. A text that has no NUL
-- byte among them does not end in the array, and `strstr` reads on behind it.
unfoldable pub overruns : List ℕ → Bool
overruns buf = leb 512 (length buf)

-- The same of what comes.
abbrev pub overflows : Input → Bool
unfolding c_string overruns
overflows failed = false
overflows (received bytes) = overruns (c_string bytes)

-- The return values -1, 0, 1, 2, 3, 4 and 5 of `handle_read`.
pub data Ret : Type 0 where
  bad_read : Ret
  rejected : Ret
  fine : Ret
  over_limit : Ret
  negative : Ret
  locked : Ret
  interrupted : Ret

-- The globals `requestP` and `self_lock`, the record file, the locks on it as the operating system
-- keeps them (`L`), and what has been written to connections, oldest first.
pub record Server (L : Type 0) : Type 0 where
  pub requests : ℕ → Request
  pub self_lock : ℕ → ℤ
  pub records : ℕ → Record
  pub locks : L
  pub output : List (ℕ × List ℕ)

-- `id - HEAD`, where it is the number of a record; elsewhere `none`.
unfoldable pub slot : ℤ → Option ℕ
unfolding wrap32 ◌-ℤ◌
slot id = elim (wrap32 (id -ℤ pos 902001)) [
  | pos k ↦ if ltb k 20 then some k else none
  | negsuc k ↦ none
]

-- `init_request`, which is all that `free_request` does: `buf` and `wait_for_write` stay.
unfoldable pub init_request : Request → Request
init_request r = record r { conn_fd = none; id = pos 0; done = false }

-- "Food: 1 booked" and so on, a line for each kind of item.
unfoldable pub show_items : List (List ℕ) → Counts → List ℕ
unfolding show_int
show_items (name ∷ names) (b ∷ bs) =
    name ++ (codes ": " ++ (show_int b ++ (codes " booked\n" ++ show_items names bs)))
show_items _ _ = []

abbrev pub obj_names : List (List ℕ)
obj_names = codes "Food" ∷ codes "Concert" ∷ codes "Electronics" ∷ []

module _ {L : Type 0} where
  -- `write` to a connection; on descriptor -1 it fails, and the code ignores that.
  abbrev pub send : Option ℕ → List ℕ → Server L → Server L
  send none text s = s
  send (some fd) text s = record s { output = s.output ++ (fd, text) ∷ [] }

  abbrev pub set_request : ℕ → Request → Server L → Server L
  set_request i r s = record s { requests = update s.requests i r }

  -- `close` of the connection and `free_request`.
  unfoldable pub hang_up : ℕ → Server L → Server L
  unfolding init_request
  hang_up i s = set_request i (init_request (s.requests i)) s

-- What a turn of the server ends in: `ERR_EXIT`; an access outside the arrays and the file, which
-- C leaves undefined; or a result.
pub data Outcome (A : Type 0) : Type 0 where
  exits : Outcome A
  stray : Outcome A
  returns : A → Outcome A
