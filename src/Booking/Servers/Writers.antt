-- ===== src/Booking/Servers/Writers.antt =====
-- A write server has a write lock on every record that one of its connections edits.
use system_programming_hw.Common.{ℕ, ◌≡◌, ◌≢◌, refl, ap, ◌∙◌, some, arith, ℕ_discrete}
use system_programming_hw.Booking.Session.{Server, f_wrlck, f_unlck}
use system_programming_hw.Booking.Writer.Turns.{connect}
use system_programming_hw.Booking.Writer.Inv.{Inv, Change, same, quiet, acquire, release, holds}
use system_programming_hw.Booking.Writer.Exclusion.{by_index}
use system_programming_hw.Booking.Servers.{Fcntl, kernel_of}
use system_programming_hw.Booking.Servers.Locking.{Sets, kept, set, wrlck_grant}

module _ (fcntl : Fcntl) (p : ℕ) where
  open fcntl use {held}

  -- What a connection of process `p` edits, `p` has a write lock on.
  abbrev pub IsGuarded : Server fcntl.Locks → Type 0
  IsGuarded s = (j k : ℕ) → holds (s.requests j) ≡ some k → held s.locks p k ≡ f_wrlck

  module _ {s t : Server fcntl.Locks} {i : ℕ} where
    pub Change-Sets : Change (kernel_of fcntl p) s t i → Sets fcntl p s.locks t.locks
    Change-Sets (same r m l) = kept l
    Change-Sets (quiet o c b m l) = kept l
    Change-Sets (acquire k o f c at m g l) = set k f_wrlck l
    Change-Sets (release k o h c b m l) = set k f_unlck l

    pub Change-IsGuarded : Inv s → IsGuarded s → Change (kernel_of fcntl p) s t i → IsGuarded t
    Change-IsGuarded inv ok (same r m l) j k = λ h. rw l (ok j k (rw r at h))
    Change-IsGuarded inv ok (quiet o c b m l) j k =
        by_index (λ r. holds r ≡ some k → held t.locks p k ≡ f_wrlck) o (λ h. ground arith)
          (λ x _ h. rw l (ok x k h)) j
    Change-IsGuarded inv ok (acquire k' o f c at m g l) j k =
        by_index (λ r. holds r ≡ some k → held t.locks p k ≡ f_wrlck) o
          (λ h. let e : k' ≡ k = ground arith in rw (l, ← e) (wrlck_grant fcntl s.locks p k' g))
          (λ x _ h.
            let ne : k' ≢ k = λ e. ground (arith, inv.marked x k h) in
            rw (l, fcntl.setlk_record s.locks p k' f_wrlck p k ne) (ok x k h))
          j
    Change-IsGuarded inv ok (release k' o hk c b m l) j k =
        by_index (λ r. holds r ≡ some k → held t.locks p k ≡ f_wrlck) o (λ h. ground arith)
          (λ x nx h.
            let ne : k' ≢ k = λ e. nx (inv.unique i x k (hk ∙ ap some e) h) in
            rw (l, fcntl.setlk_record s.locks p k' f_unlck p k ne) (ok x k h))
          j

  -- A new connection edits nothing.
  pub connect-IsGuarded : (i : ℕ) (s : Server fcntl.Locks) → IsGuarded s → IsGuarded (connect i s)
  unfolding connect
  connect-IsGuarded i s ok j k = elim (ℕ_discrete i j) [
    | yes e ↦ λ h. ground arith
    | no ne ↦ λ h. ok j k (ground arith)
  ]

  pub connect-Sets : (i : ℕ) (s : Server fcntl.Locks) → Sets fcntl p s.locks (connect i s).locks
  unfolding connect
  connect-Sets i s = kept refl
