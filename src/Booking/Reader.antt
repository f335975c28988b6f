-- ===== src/Booking/Reader.antt =====
-- The read server of HW1/server.c: `handle_read` and `mylock_function` under READ_SERVER. What
-- `main` does is in the child `Turns`.
pub mod Turns
pub mod Answers
pub mod Effect
pub mod Readers
pub mod Locks
mod Tests
use system_programming_hw.Common.{
  ℕ, ◌++◌, Bool, true, false, List, [], ◌∷◌, Option, none, some, if◌then◌else◌, update,
}
use system_programming_hw.Common.Int.{ℤ, pos, ◌+ℤ◌, ◌-ℤ◌, wrap32}
use system_programming_hw.Text.{codes, c_string, starts_with, atoi}
use system_programming_hw.Booking.Parse.{is_zero}
use system_programming_hw.Booking.Session.{
  Request, LockType, f_rdlck, f_wrlck, f_unlck, Kernel, Input, failed, received, Ret, bad_read,
  rejected, fine, locked, interrupted, Server, slot, show_items, obj_names, set_request, Outcome,
  exits, stray, returns, overruns,
}
use system_programming_hw.Booking.Writer.{has_newline}

abbrev pub is_write_lock : LockType → Bool
is_write_lock f_wrlck = true
is_write_lock f_rdlck = false
is_write_lock f_unlck = false

module _ (kernel : Kernel) where
  -- `mylock_function` for record `k`: `self_lock` counts the readers, and the last one unlocks.
  unfoldable pub mylock_function : ℕ → LockType → Server kernel.Locks → Server kernel.Locks
  mylock_function k f_rdlck s = record s {
    self_lock = update s.self_lock k (wrap32 (s.self_lock k +ℤ pos 1));
    locks = kernel.setlk s.locks k f_rdlck;
  }
  mylock_function k f_unlck s =
      let left = wrap32 (s.self_lock k -ℤ pos 1) in
      record s {
        self_lock = update s.self_lock k left;
        locks = if is_zero left then kernel.setlk s.locks k f_unlck else s.locks;
      }
  mylock_function k f_wrlck s = s

  -- The first message of a connection: the id, which is looked up, locked and reported.
  unfoldable pub look_up : ℕ → List ℕ → Server kernel.Locks → Outcome (Ret × Server kernel.Locks)
  unfolding mylock_function
  look_up i buf s =
      let id = atoi buf in
      let r = s.requests i in
      let s₁ = set_request i (record r { id = id }) s in
      elim (slot id) [
        | none ↦ returns (rejected, s₁)
        | some k ↦
            if is_write_lock (kernel.getlk s₁.locks k f_rdlck)
            then returns (locked, s₁)
            else (let s₂ = mylock_function k f_rdlck s₁ in
                let shown = show_items obj_names (s₂.records k).booking_state ++ codes "\n" in
                returns (fine, set_request i (record r { id = id; buf = shown }) s₂))
      ]

  -- A later message: the text "Exit" unlocks record `k` of the connection.
  unfoldable pub leave : ℕ → ℕ → List ℕ → Server kernel.Locks → Ret × Server kernel.Locks
  unfolding mylock_function
  leave i k buf s =
      if starts_with (codes "Exit") buf
      then (let s₁ = set_request i (record (s.requests i) { buf = codes "Exit" }) s in
          (fine, mylock_function k f_unlck s₁))
      else (rejected, s)

  -- A text with a newline, by the stage of the connection.
  unfoldable pub handle_text :
      ℕ → List ℕ → Server kernel.Locks → Outcome (Ret × Server kernel.Locks)
  unfolding look_up leave
  handle_text i buf s =
      if (s.requests i).done
      then elim (slot (s.requests i).id) [ none ↦ stray | some k ↦ returns (leave i k buf s) ]
      else look_up i buf s

  -- A text that begins with the bytes ff f4 is an interrupt of the client.
  unfoldable pub handle_interrupt : ℕ → Server kernel.Locks → Outcome (Ret × Server kernel.Locks)
  unfolding mylock_function
  handle_interrupt i s =
      if is_zero (s.requests i).id
      then returns (interrupted, s)
      else elim (slot (s.requests i).id) [
        | none ↦ stray
        | some k ↦ returns (interrupted, mylock_function k f_unlck s)
      ]

  unfoldable pub handle_buffer :
      ℕ → List ℕ → Server kernel.Locks → Outcome (Ret × Server kernel.Locks)
  unfolding handle_text handle_interrupt
  handle_buffer i buf s =
      if has_newline buf
      then handle_text i buf s
      else if starts_with (255 ∷ 244 ∷ []) buf
      then handle_interrupt i s
      else exits

  unfoldable pub handle_read : ℕ → Input → Server kernel.Locks → Outcome (Ret × Server kernel.Locks)
  unfolding handle_buffer overruns
  handle_read i failed s = returns (bad_read, s)
  handle_read i (received []) s = returns (rejected, s)
  handle_read i (received (c ∷ cs)) s =
      if overruns (c_string (c ∷ cs)) then stray else handle_buffer i (c_string (c ∷ cs)) s
