-- ===== src/Booking/Writer.antt =====
-- The write server of HW1/server.c: `handle_read`, `mylock_function` and `mylock_check` under
-- WRITE_SERVER. What `main` does is in the child `Turns`.
pub mod Turns
pub mod Answers
pub mod Inv
pub mod Stray
pub mod Exclusion
pub mod Leak
pub mod File
use system_programming_hw.Common.{
  ℕ, ◌+◌, ◌≡◌, refl, Bool, true, false, not, ◌&&◌, ◌||◌, List, [], ◌∷◌, ◌++◌, Option, none, some,
  ◌==◌, if◌then◌else◌, update,
}
use system_programming_hw.Common.Int.{ℤ, pos, negsuc}
use system_programming_hw.Text.{codes, c_string, contains, starts_with, atoi, show_int}
use system_programming_hw.Booking.Parse.{myatoi, is_zero}
use system_programming_hw.Booking.Rules.{
  Counts, Verdict, too_many, below_zero, booked, check_booking,
}
use system_programming_hw.Booking.Session.{
  Request, Record, LockType, f_rdlck, f_wrlck, f_unlck, Kernel, Input, failed, received, Ret,
  bad_read, rejected, fine, over_limit, negative, locked, interrupted, Server, slot, show_items,
  obj_names, send, set_request, hang_up, Outcome, exits, stray, returns, overruns,
}

abbrev pub is_unlocked : LockType → Bool
is_unlocked f_unlck = true
is_unlocked f_rdlck = false
is_unlocked f_wrlck = false

abbrev pub is_one : ℤ → Bool
is_one (pos n) = n == 1
is_one (negsuc n) = false

-- The two searches by `strstr`, for a carriage return with a newline and for a newline alone.
abbrev pub has_newline : List ℕ → Bool
unfolding contains
has_newline buf = contains (13 ∷ 10 ∷ []) buf || contains (10 ∷ []) buf

module _ (kernel : Kernel) where
  -- `mylock_check` for record `k`.
  unfoldable pub mylock_check : ℕ → LockType → Server kernel.Locks → LockType
  mylock_check k type s = kernel.getlk s.locks k type

  -- `mylock_function` for record `k`.
  unfoldable pub mylock_function : ℕ → LockType → Server kernel.Locks → Server kernel.Locks
  mylock_function k type s = record s {
    self_lock = update s.self_lock k (if is_unlocked type then pos 0 else pos 1);
    locks = kernel.setlk s.locks k type;
  }

  -- The first message of a connection: the id, which is looked up, locked and reported.
  unfoldable pub identify : ℕ → List ℕ → Server kernel.Locks → Outcome (Ret × Server kernel.Locks)
  unfolding mylock_check mylock_function
  identify i buf s =
      let id = atoi buf in
      let r = s.requests i in
      let s₁ = set_request i (record r { id = id }) s in
      elim (slot id) [
        | none ↦ returns (rejected, s₁)
        | some k ↦
            if not (is_unlocked (mylock_check k f_wrlck s₁)) || is_one (s₁.self_lock k)
            then returns (locked, s₁)
            else (let s₂ = mylock_function k f_wrlck s₁ in
                let shown = show_items obj_names (s₂.records k).booking_state ++ codes "\n" in
                returns (fine, set_request i (record r { id = id; buf = shown }) s₂))
      ]

  -- The end of a booking of record `k`, by the result of the checks: the record is written where
  -- they pass, and unlocked in any case.
  unfoldable pub settle : ℕ → ℕ → Verdict → Server kernel.Locks → Ret × Server kernel.Locks
  unfolding mylock_function
  settle i k too_many s = (over_limit, mylock_function k f_unlck s)
  settle i k below_zero s = (negative, mylock_function k f_unlck s)
  settle i k (booked out) s =
      let entry = record (s.records k) { booking_state = out } in
      let s₁ = mylock_function k f_unlck (record s { records = update s.records k entry }) in
      (fine, set_request i (record (s.requests i) { buf = show_items obj_names out }) s₁)

  -- The second message: the booking command, for the record `k` that the connection has locked.
  unfoldable pub book : ℕ → ℕ → List ℕ → Server kernel.Locks → Outcome (Ret × Server kernel.Locks)
  unfolding settle
  book i k buf s = elim (myatoi buf) [
    | none ↦ returns (rejected, mylock_function k f_unlck s)
    | some nums ↦ returns (settle i k (check_booking (s.records k).booking_state nums) s)
  ]

  -- A text with a newline, by the stage of the connection.
  unfoldable pub handle_text :
      ℕ → List ℕ → Server kernel.Locks → Outcome (Ret × Server kernel.Locks)
  unfolding identify book
  handle_text i buf s =
      if (s.requests i).wait_for_write
      then identify i buf s
      else elim (slot (s.requests i).id) [ none ↦ stray | some k ↦ book i k buf s ]

  -- A text that begins with the bytes ff f4 is an interrupt of the client.
  unfoldable pub handle_interrupt : ℕ → Server kernel.Locks → Outcome (Ret × Server kernel.Locks)
  unfolding mylock_function
  handle_interrupt i s =
      if is_zero (s.requests i).id
      then returns (interrupted, s)
      else elim (slot (s.requests i).id) [
        | none ↦ stray
        | some k ↦ returns (interrupted, mylock_function k f_unlck s)
      ]

  unfoldable pub handle_buffer :
      ℕ → List ℕ → Server kernel.Locks → Outcome (Ret × Server kernel.Locks)
  unfolding handle_text handle_interrupt
  handle_buffer i buf s =
      if has_newline buf
      then handle_text i buf s
      else if starts_with (255 ∷ 244 ∷ []) buf
      then handle_interrupt i s
      else exits

  unfoldable pub handle_read : ℕ → Input → Server kernel.Locks → Outcome (Ret × Server kernel.Locks)
  unfolding handle_buffer overruns
  handle_read i failed s = returns (bad_read, s)
  handle_read i (received []) s = returns (rejected, s)
  handle_read i (received (c ∷ cs)) s =
      if overruns (c_string (c ∷ cs)) then stray else handle_buffer i (c_string (c ∷ cs)) s
