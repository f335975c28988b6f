-- ===== src/Booking/Reader/Locks.antt =====
-- When the read server gives a record lock back, and when it never does.
use system_programming_hw.Common.{
  ℕ, suc, ◌<◌, ◌≡◌, ◌≢◌, refl, Bool, true, false, not, ◌&&◌, [], ◌∷◌, some, arith, sym, Bool-cases,
  inl, inr, if◌then◌else◌,
}
use system_programming_hw.Common.Int.{pos, ◌-ℤ◌, wrap32}
use system_programming_hw.Text.{codes, c_string, starts_with}
use system_programming_hw.Booking.Parse.{is_zero}
use system_programming_hw.Booking.Session.{
  Record, Kernel, Input, failed, received, rejected, Server, returns, overruns, f_rdlck, f_unlck,
}
use system_programming_hw.Booking.Writer.{has_newline}
use system_programming_hw.Booking.Reader.{handle_read, is_write_lock}
use system_programming_hw.Booking.Reader.Turns.{turn, answer, Step, input, Reach}
use system_programming_hw.Booking.Reader.Answers.{holds, answer-Closed}
use system_programming_hw.Booking.Reader.Effect.{Locking, idle, takes, gives, turn-Effect}
use system_programming_hw.Booking.Reader.Readers.{
  count, count_pos, count-at, Counted, Kept, Inv, Step-Inv, Step-Kept, reader-Inv,
}

module _ (kernel : Kernel) where
  -- What may happen to the locks: nothing, a read lock where no write lock is in its way, or the release of a record `k` with `P k`.
  pub data LockChange (P : ℕ → Type 0) (s t : Server kernel.Locks) : Type 0 where
    unchanged : t.locks ≡ s.locks → LockChange P s t
    locked :
        (k : ℕ)
        → is_write_lock (kernel.getlk s.locks k f_rdlck) ≡ false
        → t.locks ≡ kernel.setlk s.locks k f_rdlck
        → LockChange P s t
    released : (k : ℕ) → t.locks ≡ kernel.setlk s.locks k f_unlck → P k → LockChange P s t

  -- No connection holds record `k`.
  abbrev pub IsFree : Server kernel.Locks → ℕ → Type 0
  IsFree t k = (j : ℕ) → j < 1024 → holds (t.requests j) ≢ some k

  release-LockChange :
      (P : ℕ → Type 0) (s t : Server kernel.Locks) (k : ℕ)
      → t.locks ≡ (
          if is_zero (wrap32 (s.self_lock k -ℤ pos 1))
          then kernel.setlk s.locks k f_unlck
          else s.locks)
      → (is_zero (wrap32 (s.self_lock k -ℤ pos 1)) ≡ true → P k)
      → LockChange P s t
  release-LockChange P s t k e p = elim (Bool-cases (is_zero (wrap32 (s.self_lock k -ℤ pos 1)))) [
    | inl last ↦ released k (rw last at e) (p last)
    | inr more ↦ unchanged (rw more at e)
  ]

  -- The counter of record `k` falls to 0 only where no holder is left.
  last-IsFree :
      {n c : ℕ} {s t : Server kernel.Locks} (k : ℕ)
      → Counted n s k c
      → Kept n s t k c
      → t.self_lock k ≡ wrap32 (s.self_lock k -ℤ pos 1)
      → is_zero (wrap32 (s.self_lock k -ℤ pos 1)) ≡ true
      → IsFree t k
  last-IsFree {t} k h kept e last j below at =
      let zero_left : is_zero (pos kept.after) ≡ true = rw (sym e, kept.counter) at last in
      ground (arith, h.enough, kept.margin, count_pos t.requests k 1024 j below at)

  -- A turn of the read server changes the locks on the record file only by a read lock where no
  -- write lock is in its way, or by the release of a record that no open connection holds
  -- afterwards; after any number of steps below 2^31 - 1.
  pub turn-LockChange :
      {file : ℕ → Record} {l : kernel.Locks} {n : ℕ} {s t : Server kernel.Locks} {fd : ℕ} (i : ℕ)
      (given : Input)
      → n < 2147483647
      → Reach kernel file l n s
      → i < 1024
      → (s.requests i).conn_fd ≡ some fd
      → turn kernel i given s ≡ returns t
      → LockChange (IsFree t) s t
  turn-LockChange {n} {s} {t} {fd} i given small r within opened e =
      let inv = reader-Inv kernel small r in
      by_locking inv (input i given within opened e)
        (turn-Effect kernel i fd given s t (inv.tidy i) opened e).locking
    where
      by_locking : Inv n s → Step kernel s t → Locking kernel s t i → LockChange (IsFree t) s t
      by_locking inv st (idle h m l) = unchanged l
      by_locking inv st (takes k a b m l g) = locked k g l
      by_locking inv st (gives k a b m l) =
          let (c, h) = inv.counted k in
          release-LockChange (IsFree t) s t k l
            (last-IsFree k h (Step-Kept kernel small inv.tidy st k c h) (rw m (ground arith)))

  -- More is counted for record `k` than the connections that hold it.
  pub record IsLost (n : ℕ) (s : Server kernel.Locks) (k : ℕ) : Type 0 where
    pub c : ℕ
    pub counted : Counted n s k c
    pub lost : count s.requests k 1024 < c

  Step-IsLost :
      {n : ℕ} {s t : Server kernel.Locks} (k : ℕ)
      → n < 2147483647
      → Inv n s
      → Step kernel s t
      → IsLost n s k
      → IsLost (suc n) t k
  Step-IsLost k small inv st lost =
      let kept = Step-Kept kernel small inv.tidy st k lost.c lost.counted in
      record {
        c = kept.after;
        counted = record {
          counter = kept.counter;
          enough = omega (arith, kept.margin, lost.lost);
          few = kept.few;
        };
        lost = omega (arith, kept.margin, lost.lost);
      }

  -- The end of a reading connection that does not unlock: its end of file, or any text
  -- but "Exit" that ends within the buffer.
  abbrev pub abandons : Input → Bool
  abandons failed = false
  abandons (received []) = true
  abandons (received (c ∷ cs)) =
      not (overruns (c_string (c ∷ cs)))
      && has_newline (c_string (c ∷ cs))
      && not (starts_with (codes "Exit") (c_string (c ∷ cs)))

  abandons-handle_read :
      (i k : ℕ) (given : Input) (s : Server kernel.Locks)
      → abandons given ≡ true
      → holds (s.requests i) ≡ some k
      → handle_read kernel i given s ≡ returns (rejected, s)
  unfolding handle_read
  abandons-handle_read i k failed s a h = cc
  abandons-handle_read i k (received []) s a h = refl
  abandons-handle_read i k (received (c ∷ cs)) s a h = ground arith

  abandons-turn :
      (i k : ℕ) (given : Input) (s : Server kernel.Locks)
      → abandons given ≡ true
      → holds (s.requests i) ≡ some k
      → turn kernel i given s ≡ returns (answer i rejected s)
  unfolding turn
  abandons-turn i k given s a h = rw (abandons-handle_read i k given s a h, turn)

  abandons-IsLost :
      {n : ℕ} {s t : Server kernel.Locks} (i k : ℕ) (given : Input)
      → Inv n s
      → i < 1024
      → abandons given ≡ true
      → holds (s.requests i) ≡ some k
      → turn kernel i given s ≡ returns t
      → IsLost n t k
  abandons-IsLost {n} {s} {t} i k given inv within a h e =
      let q : answer i rejected s ≡ t = cc (abandons-turn i k given s a h, e) in
      let closed = answer-Closed i rejected s refl in
      let (c, counted) = inv.counted k in
      let fewer =
        count-at {f = (answer i rejected s).requests} {g = s.requests} closed.others k 1024
          within in
      rw (← q) (record {
        c = c;
        counted = record {
          counter = rw closed.counts counted.counter;
          enough = ground (arith, fewer, closed.shut, counted.enough);
          few = counted.few;
        };
        lost = ground (arith, fewer, closed.shut, counted.enough);
      })

  IsLost-later : {n : ℕ} {s : Server kernel.Locks} (k : ℕ) → IsLost n s k → IsLost (suc n) s k
  IsLost-later k lost = record {
    c = lost.c;
    counted = record {
      counter = lost.counted.counter;
      enough = lost.counted.enough;
      few = omega (arith, lost.counted.few);
    };
    lost = lost.lost;
  }

  -- Any number of steps, from a state that `n` steps have reached.
  pub data Steps (n : ℕ) (s : Server kernel.Locks) : ℕ → Server kernel.Locks → Type 0 where
    done : Steps n s n s
    more :
        {m : ℕ} {t u : Server kernel.Locks} → Steps n s m t → Step kernel t u → Steps n s (suc m) u

  Steps-IsLost :
      {n : ℕ} {s : Server kernel.Locks} (k : ℕ) {m : ℕ} {t : Server kernel.Locks}
      → m < 2147483647
      → Inv n s
      → IsLost n s k
      → Steps n s m t
      → Inv m t × IsLost m t k
  Steps-IsLost k small inv lost done = (inv, lost)
  Steps-IsLost k small inv lost (more steps st) =
      let (inv', lost') = Steps-IsLost k (omega arith) inv lost steps in
      (Step-Inv kernel (omega arith) inv' st, Step-IsLost k (omega arith) inv' st lost')

  lost-LockChange :
      {n : ℕ} {s t : Server kernel.Locks} (i k : ℕ)
      → n < 2147483647
      → IsLost n s k
      → i < 1024
      → Inv n s
      → Step kernel s t
      → Locking kernel s t i
      → LockChange (λ k'. k' ≢ k) s t
  lost-LockChange i k small lost within inv st (idle h m l) = unchanged l
  lost-LockChange i k small lost within inv st (takes k' a b m l g) = locked k' g l
  lost-LockChange {s} {t} i k small lost within inv st (gives k' a b m l) =
      let kept = Step-Kept kernel small inv.tidy st k lost.c lost.counted in
      release-LockChange (λ k'. k' ≢ k) s t k' l
        (λ last e.
          let now : t.self_lock k ≡ wrap32 (s.self_lock k' -ℤ pos 1) = rw (m, e) (ground arith) in
          let zero_left : is_zero (pos kept.after) ≡ true = rw (sym now, kept.counter) at last in
          ground (arith, lost.lost, kept.margin))

  -- A reading connection that ends by its end of file, or by a text other than "Exit" with a newline
  -- and of less than 512 bytes, leaves its record locked: after any further steps, below 2^31 - 1 in
  -- all, no turn of the read server releases that record.
  pub reader_leaks :
      {file : ℕ → Record} {l : kernel.Locks} {n m : ℕ} {s t u v : Server kernel.Locks} {fd fd' : ℕ}
      (i k : ℕ) (given : Input)
      → Reach kernel file l n s
      → i < 1024
      → (s.requests i).conn_fd ≡ some fd
      → holds (s.requests i) ≡ some k
      → abandons given ≡ true
      → turn kernel i given s ≡ returns t
      → Steps (suc n) t m u
      → m < 2147483647
      → suc n < 2147483647
      → (j : ℕ) (later : Input) → j < 1024
      → (u.requests j).conn_fd ≡ some fd'
      → turn kernel j later u ≡ returns v
      → LockChange (λ k'. k' ≢ k) u v
  reader_leaks {n} {s} {t} {u} {v} {fd} {fd'} i k given r within opened h a e steps small early j
        later below open_j e' =
      let inv = reader-Inv kernel (omega arith) r in
      let lost = abandons-IsLost i k given inv within a h e in
      let inv_t = Step-Inv kernel (omega arith) inv (input i given within opened e) in
      let (inv_u, lost_u) = Steps-IsLost k small inv_t (IsLost-later k lost) steps in
      lost-LockChange j k small lost_u below inv_u (input j later below open_j e')
        (turn-Effect kernel j fd' later u v (inv_u.tidy j) open_j e').locking
