-- ===== src/Booking/Servers/Locking.antt =====
-- What follows from the documented behaviour of `fcntl`.
use system_programming_hw.Common.{
  ℕ, ◌≡◌, ◌≢◌, refl, sym, ◌∙◌, true, false, ◌⊎◌, inl, inr, ℕ_discrete,
}
use system_programming_hw.Booking.Session.{LockType, f_rdlck, f_wrlck, f_unlck}
use system_programming_hw.Booking.Reader.{is_write_lock}
use system_programming_hw.Booking.Writer.{is_unlocked}
use system_programming_hw.Booking.Servers.{Fcntl, conflicts}

is_unlocked-eq : (t : LockType) → is_unlocked t ≡ true → t ≡ f_unlck
is_unlocked-eq f_rdlck h = cc
is_unlocked-eq f_wrlck h = cc
is_unlocked-eq f_unlck h = refl

pub LockType-cases : (t : LockType) → (t ≡ f_unlck) ⊎ (t ≢ f_unlck)
LockType-cases f_rdlck = inr (λ e. cc)
LockType-cases f_wrlck = inr (λ e. cc)
LockType-cases f_unlck = inl refl

conflicts_comm : (a b : LockType) → conflicts a b ≡ conflicts b a
conflicts_comm f_unlck f_unlck = refl
conflicts_comm f_unlck f_rdlck = refl
conflicts_comm f_unlck f_wrlck = refl
conflicts_comm f_rdlck f_unlck = refl
conflicts_comm f_rdlck f_rdlck = refl
conflicts_comm f_rdlck f_wrlck = refl
conflicts_comm f_wrlck f_unlck = refl
conflicts_comm f_wrlck f_rdlck = refl
conflicts_comm f_wrlck f_wrlck = refl

-- What is in the way of a read lock is a write lock, and nothing is in the way of unlocking.
conflicts_rdlck : (a : LockType) → conflicts a f_rdlck ≡ true → is_write_lock a ≡ true
conflicts_rdlck f_rdlck h = cc
conflicts_rdlck f_wrlck h = refl
conflicts_rdlck f_unlck h = cc

conflicts_unlck : (a : LockType) → conflicts a f_unlck ≡ false
conflicts_unlck f_rdlck = refl
conflicts_unlck f_wrlck = refl
conflicts_unlck f_unlck = refl

module _ (fcntl : Fcntl) where
  open fcntl use {Locks, held, getlk, setlk}

  -- No two processes hold locks that exclude each other.
  abbrev pub IsCompatible : Locks → Type 0
  IsCompatible l = (p q k : ℕ) → p ≢ q → conflicts (held l p k) (held l q k) ≡ false

  -- The locks after what process `p` has done in a step.
  pub data Sets (p : ℕ) (l l' : Locks) : Type 0 where
    kept : l' ≡ l → Sets p l l'
    set : (k : ℕ) (t : LockType) → l' ≡ setlk l p k t → Sets p l l'

  -- The three calls that the servers make: each is granted.
  pub rdlck_grant :
      (l : Locks) (p k : ℕ)
      → is_write_lock (getlk l p k f_rdlck) ≡ false
      → held (setlk l p k f_rdlck) p k ≡ f_rdlck
  rdlck_grant l p k h = elim (LockType-cases (getlk l p k f_rdlck)) [
    | inl free ↦ fcntl.setlk_grant l p k f_rdlck free
    | inr ne ↦
        let (q, e, c) = fcntl.getlk_holder l p k f_rdlck ne in
        let w = conflicts_rdlck (held l q k) c in absurd (cc)
  ]

  pub wrlck_grant :
      (l : Locks) (p k : ℕ)
      → is_unlocked (getlk l p k f_wrlck) ≡ true
      → held (setlk l p k f_wrlck) p k ≡ f_wrlck
  wrlck_grant l p k h = fcntl.setlk_grant l p k f_wrlck (is_unlocked-eq _ h)

  pub unlck_grant : (l : Locks) (p k : ℕ) → held (setlk l p k f_unlck) p k ≡ f_unlck
  unlck_grant l p k = elim (LockType-cases (getlk l p k f_unlck)) [
    | inl free ↦ fcntl.setlk_grant l p k f_unlck free
    | inr ne ↦
        let (q, e, c) = fcntl.getlk_holder l p k f_unlck ne in
        let u = conflicts_unlck (held l q k) in absurd (cc)
  ]

  -- A granted lock excludes none that another process holds.
  setlk-compatible :
      (l : Locks) (p k : ℕ) (t : LockType)
      → IsCompatible l
      → (q j : ℕ) → p ≢ q
      → conflicts (held (setlk l p k t) p j) (held (setlk l p k t) q j) ≡ false
  setlk-compatible l p k t ok q j ne = elim (LockType-cases (getlk l p k t)) [
    | inr taken ↦ rw (fcntl.setlk_refuse l p k t taken) (ok p q j ne)
    | inl free ↦ elim (ℕ_discrete k j) [
      | yes e ↦
          rw
            (
              ← e,
              fcntl.setlk_grant l p k t free,
              fcntl.setlk_process l p k t q k ne,
              conflicts_comm t (held l q k),
            )
            (fcntl.getlk_free l p k t free q ne)
      | no other ↦
          rw (fcntl.setlk_record l p k t p j other, fcntl.setlk_record l p k t q j other)
            (ok p q j ne)
    ]
  ]

  pub Sets-IsCompatible : (p : ℕ) {l l' : Locks} → Sets p l l' → IsCompatible l → IsCompatible l'
  Sets-IsCompatible p (kept e) ok a b j ne = rw e (ok a b j ne)
  Sets-IsCompatible p {l} (set k t e) ok a b j ne = rw e (elim (ℕ_discrete p a) [
    | yes pa ↦
        let pb : p ≢ b = λ h. ne (sym pa ∙ h) in rw (← pa) (setlk-compatible l p k t ok b j pb)
    | no na ↦ elim (ℕ_discrete p b) [
      | yes pb ↦
          rw (← pb, conflicts_comm (held (setlk l p k t) a j) (held (setlk l p k t) p j))
            (setlk-compatible l p k t ok a j na)
      | no nb ↦
          rw (fcntl.setlk_process l p k t a j na, fcntl.setlk_process l p k t b j nb) (ok a b j ne)
    ]
  ])

  -- A step of one process leaves the locks of the others.
  pub Sets-other :
      (p : ℕ) {l l' : Locks} → Sets p l l' → (q j : ℕ) → p ≢ q → held l' q j ≡ held l q j
  Sets-other p (kept e) q j ne = rw e
  Sets-other p {l} (set k t e) q j ne = rw e (fcntl.setlk_process l p k t q j ne)
