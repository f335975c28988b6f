-- ===== src/Booking/Servers/Exclusion.antt =====
-- Servers that share a record file do not disturb each other: a record that a connection of a write
-- server edits is in use by no other process.
use mathlib.Core.Path.{subst}
use system_programming_hw.Common.{ℕ, refl, ◌<◌, ◌≡◌, ◌≢◌, sym, true, some, arith, ℕ_discrete}
use system_programming_hw.Booking.Session.{Record, Server, slot}
use system_programming_hw.Booking.Writer.Answers.{is_editing}
use system_programming_hw.Booking.Writer.Inv as WriterInv
use system_programming_hw.Booking.Writer.Exclusion.{Reach-Inv}
use system_programming_hw.Booking.Reader.Answers.{is_reading}
use system_programming_hw.Booking.Reader.Answers as ReaderAnswers
use system_programming_hw.Booking.Servers.{
  Fcntl, kernel_of, Build, read_server, write_server, World, seen, put, Step, read_accept,
  read_input, write_accept, write_input, Reach, start, later,
}
use system_programming_hw.Booking.Servers.Locking.{
  IsCompatible, Sets, Sets-IsCompatible, Sets-other,
}
use system_programming_hw.Booking.Servers.Views.{seen_self, writer_view, reader_view}
use system_programming_hw.Booking.Servers.Writers as Writers
use system_programming_hw.Booking.Servers.Readers as Readers

module _ (fcntl : Fcntl) (build : ℕ → Build) where
  open fcntl use {held}

  -- The locks of different processes are compatible, and each process has locks on what its
  -- connections hold.
  pub record Inv (w : World fcntl.Locks) : Type 0 where
    pub compatible : IsCompatible fcntl w.locks
    pub writers : (p : ℕ) → build p ≡ write_server → Writers.IsGuarded fcntl p (seen w p)
    pub readers : (p : ℕ) → build p ≡ read_server → Readers.IsGuarded fcntl p (seen w p)

  module _ (w : World fcntl.Locks) (p : ℕ) (s : Server fcntl.Locks) (inv : Inv w)
      (sets : Sets fcntl p w.locks s.locks) where
    put-writers :
        (build p ≡ write_server → Writers.IsGuarded fcntl p s)
        → (q : ℕ) → build q ≡ write_server
        → Writers.IsGuarded fcntl q (seen (put w p s) q)
    put-writers own q b = elim (ℕ_discrete p q) [
      | yes e ↦
          subst (λ x. build x ≡ write_server → Writers.IsGuarded fcntl x (seen (put w p s) x)) e
            (λ b'. subst (Writers.IsGuarded fcntl p) (sym (seen_self w s p)) (own b')) b
      | no ne ↦ λ j k h. rw (Sets-other fcntl p sets q k ne) (inv.writers q b j k (ground arith))
    ]

    put-readers :
        (build p ≡ read_server → Readers.IsGuarded fcntl p s)
        → (q : ℕ) → build q ≡ read_server
        → Readers.IsGuarded fcntl q (seen (put w p s) q)
    put-readers own q b = elim (ℕ_discrete p q) [
      | yes e ↦
          subst (λ x. build x ≡ read_server → Readers.IsGuarded fcntl x (seen (put w p s) x)) e
            (λ b'. subst (Readers.IsGuarded fcntl p) (sym (seen_self w s p)) (own b')) b
      | no ne ↦ λ j k below h.
          rw (Sets-other fcntl p sets q k ne) (inv.readers q b j k below (ground arith))
    ]

    put-writer : build p ≡ write_server → Writers.IsGuarded fcntl p s → Inv (put w p s)
    put-writer b ok = record {
      compatible = Sets-IsCompatible fcntl p sets inv.compatible;
      writers = put-writers (λ _. ok);
      readers = put-readers (λ b'. absurd (cc));
    }

    put-reader : build p ≡ read_server → Readers.IsGuarded fcntl p s → Inv (put w p s)
    put-reader b ok = record {
      compatible = Sets-IsCompatible fcntl p sets inv.compatible;
      writers = put-writers (λ b'. absurd (cc));
      readers = put-readers (λ _. ok);
    }

  module _ {file : ℕ → Record} {l : fcntl.Locks} where
    Step-Inv :
        {n : ℕ} {w v : World fcntl.Locks}
        → n < 2147483647
        → Reach fcntl build file l n w
        → Inv w
        → Step fcntl build w v
        → Inv v
    Step-Inv {w} small r inv (read_accept p i b within closed) =
        put-reader w p _ inv (Readers.connect-Sets fcntl p i (seen w p)) b
          (Readers.connect-IsGuarded fcntl p i (seen w p) (inv.readers p b))
    Step-Inv {w} small r inv (read_input p i given {t} b within opened e) =
        let (ok, sets) =
          Readers.turn-IsGuarded fcntl p i given small (reader_view fcntl build p b r) within opened
            e (inv.readers p b) in
        put-reader w p t inv sets b ok
    Step-Inv {w} small r inv (write_accept p i b closed) =
        put-writer w p _ inv (Writers.connect-Sets fcntl p i (seen w p)) b
          (Writers.connect-IsGuarded fcntl p i (seen w p) (inv.writers p b))
    Step-Inv {w} small r inv (write_input p i given {fd} {t} b opened e) =
        let own = Reach-Inv (kernel_of fcntl p) (writer_view fcntl build p b r) in
        let change =
          WriterInv.turn-Change (kernel_of fcntl p) i fd given (seen w p) t own opened e in
        put-writer w p t inv (Writers.Change-Sets fcntl p change) b
          (Writers.Change-IsGuarded fcntl p own (inv.writers p b) change)

    -- After any number of steps below 2^31 - 1: no two processes hold locks that exclude each other,
    -- a write server has a write lock on each record that one of its connections edits, and a read
    -- server a read lock on each record that one of its connections reads.
    pub servers-Inv :
        {n : ℕ} {w : World fcntl.Locks} → n < 2147483647 → Reach fcntl build file l n w → Inv w
    servers-Inv small (start free) = record {
      compatible = λ p q k ne. rw (free p k) refl;
      writers = λ p b j k h. cc;
      readers = λ p b j k below h. cc;
    }
    servers-Inv small (later r st) = Step-Inv (omega arith) r (servers-Inv (omega arith) r) st

    -- After any number of steps of all servers together, below 2^31 - 1 and each turn being run
    -- without interruption: while a connection of a write server edits a record, no connection of
    -- another write server edits that record, and no connection of a read server reads it.
    pub record_exclusion :
        {n : ℕ} {w : World fcntl.Locks}
        → n < 2147483647
        → Reach fcntl build file l n w
        → (p i k : ℕ) → build p ≡ write_server
        → is_editing ((w.own p).requests i) ≡ true
        → slot ((w.own p).requests i).id ≡ some k
        → (q : ℕ) → p ≢ q
        → (build q ≡ write_server → (j : ℕ) → WriterInv.holds ((w.own q).requests j) ≢ some k)
          × (build q ≡ read_server
              → (j : ℕ) → j < 1024
              → ReaderAnswers.holds ((w.own q).requests j) ≢ some k)
    record_exclusion small r p i k b editing at q ne =
        let inv = servers-Inv small r in
        let wr = inv.writers p b i k (ground arith) in
        let apart = inv.compatible p q k ne in
        (
          (λ bq j h. let wr' = inv.writers q bq j k h in absurd (ground arith)),
          (λ bq j below h. let rd = inv.readers q bq j k below h in absurd (ground arith)),
        )
