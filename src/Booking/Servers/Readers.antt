-- ===== src/Booking/Servers/Readers.antt =====
-- A read server has a read lock on every record that one of its connections reads.
use system_programming_hw.Common.{
  ℕ, ◌<◌, ◌≡◌, ◌≢◌, refl, sym, ap, ◌∙◌, some, arith, ℕ_discrete, inl, inr,
}
use system_programming_hw.Booking.Session.{Record, Input, Server, returns, f_rdlck, f_unlck}
use system_programming_hw.Booking.Reader.Turns.{turn, connect, Reach}
use system_programming_hw.Booking.Reader.Answers.{holds}
use system_programming_hw.Booking.Reader.Effect.{Locking, idle, takes, gives, turn-Effect}
use system_programming_hw.Booking.Reader.Readers.{reader-Inv}
use system_programming_hw.Booking.Reader.Locks.{
  LockChange, unchanged, locked, released, IsFree, turn-LockChange,
}
use system_programming_hw.Booking.Servers.{Fcntl, kernel_of}
use system_programming_hw.Booking.Servers.Locking.{Sets, kept, set, rdlck_grant}

module _ (fcntl : Fcntl) (p : ℕ) where
  open fcntl use {held}

  -- What a connection of process `p` reads, `p` has a read lock on.
  abbrev pub IsGuarded : Server fcntl.Locks → Type 0
  IsGuarded s = (j k : ℕ) → j < 1024 → holds (s.requests j) ≡ some k → held s.locks p k ≡ f_rdlck

  module _ {s t : Server fcntl.Locks} where
    LockChange-Sets :
        LockChange (kernel_of fcntl p) (IsFree (kernel_of fcntl p) t) s t
        → Sets fcntl p s.locks t.locks
    LockChange-Sets (unchanged l) = kept l
    LockChange-Sets (locked k g l) = set k f_rdlck l
    LockChange-Sets (released k l f) = set k f_unlck l

    -- A record that is still read stays locked.
    LockChange-held :
        LockChange (kernel_of fcntl p) (IsFree (kernel_of fcntl p) t) s t
        → (j k : ℕ) → j < 1024
        → holds (t.requests j) ≡ some k
        → held s.locks p k ≡ f_rdlck
        → held t.locks p k ≡ f_rdlck
    LockChange-held (unchanged l) j k within h ok = rw l ok
    LockChange-held (locked k' g l) j k within h ok = elim (ℕ_discrete k' k) [
      | yes e ↦ rw (l, ← e) (rdlck_grant fcntl s.locks p k' g)
      | no ne ↦ rw (l, fcntl.setlk_record s.locks p k' f_rdlck p k ne) ok
    ]
    LockChange-held (released k' l free) j k within h ok =
        let ne : k' ≢ k = λ e. free j within (h ∙ ap some (sym e)) in
        rw (l, fcntl.setlk_record s.locks p k' f_unlck p k ne) ok

    module _ {i : ℕ} (c : LockChange (kernel_of fcntl p) (IsFree (kernel_of fcntl p) t) s t)
        (ok : IsGuarded s) (o : (j : ℕ) → i ≢ j → t.requests j ≡ s.requests j) where
      -- By what becomes of the connection whose turn it was.
      Locking-held :
          (k : ℕ)
          → Locking (kernel_of fcntl p) s t i
          → i < 1024
          → holds (t.requests i) ≡ some k
          → held t.locks p k ≡ f_rdlck
      Locking-held k (idle (inl e) m l) within h = cc
      Locking-held k (idle (inr e) m l) within h =
          LockChange-held c i k within h (ok i k within (sym e ∙ h))
      Locking-held k (takes k' a b m l g) within h =
          let e : k' ≡ k = cc in rw (l, ← e) (rdlck_grant fcntl s.locks p k' g)
      Locking-held k (gives k' a b m l) within h = cc

      Locking-IsGuarded : i < 1024 → Locking (kernel_of fcntl p) s t i → IsGuarded t
      Locking-IsGuarded within e j k below h = elim (ℕ_discrete i j) [
        | yes ij ↦ Locking-held k e within (rw ij h)
        | no ne ↦ LockChange-held c j k below h (ok j k below (rw (o j ne) at h))
      ]

  -- A turn of a read server, which keeps the guard.
  pub turn-IsGuarded :
      {file : ℕ → Record} {l : fcntl.Locks} {n : ℕ} {s t : Server fcntl.Locks} {fd : ℕ} (i : ℕ)
      (given : Input)
      → n < 2147483647
      → Reach (kernel_of fcntl p) file l n s
      → i < 1024
      → (s.requests i).conn_fd ≡ some fd
      → turn (kernel_of fcntl p) i given s ≡ returns t
      → IsGuarded s
      → IsGuarded t × Sets fcntl p s.locks t.locks
  turn-IsGuarded {s} {t} {fd} i given small r within opened e ok =
      let inv = reader-Inv (kernel_of fcntl p) small r in
      let effect = turn-Effect (kernel_of fcntl p) i fd given s t (inv.tidy i) opened e in
      let change = turn-LockChange (kernel_of fcntl p) i given small r within opened e in
      (Locking-IsGuarded change ok effect.others within effect.locking, LockChange-Sets change)

  -- A new connection reads nothing.
  pub connect-IsGuarded : (i : ℕ) (s : Server fcntl.Locks) → IsGuarded s → IsGuarded (connect i s)
  unfolding connect
  connect-IsGuarded i s ok j k below = elim (ℕ_discrete i j) [
    | yes e ↦ λ h. ground arith
    | no ne ↦ λ h. ok j k below (ground arith)
  ]

  pub connect-Sets : (i : ℕ) (s : Server fcntl.Locks) → Sets fcntl p s.locks (connect i s).locks
  unfolding connect
  connect-Sets i s = kept refl
