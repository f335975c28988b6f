-- ===== src/Booking/Servers/Views.antt =====
-- Each process sees a run of its own, in which the steps of the others are changes of the locks and
-- of the file from outside.
use mathlib.Core.Path.{subst}
use system_programming_hw.Common.{ℕ, suc, ◌≡◌, ◌≢◌, sym, none, some, arith, ℕ_discrete}
use system_programming_hw.Booking.Session.{Record, Server, returns}
use system_programming_hw.Booking.Writer.Turns as WriterTurns
use system_programming_hw.Booking.Reader.Turns as ReaderTurns
use system_programming_hw.Booking.Servers.{
  Fcntl, kernel_of, Build, read_server, write_server, World, seen, put, Step, read_accept,
  read_input, write_accept, write_input, Reach, start, later,
}

module _ {L : Type 0} (w : World L) (s : Server L) where
  -- What process `q` sees after a move of process `p`.
  pub seen_self : (p : ℕ) → seen (put w p s) p ≡ s
  seen_self p = ground arith

  pub seen-other :
      (p q : ℕ)
      → p ≢ q
      → seen (put w p s) q ≡ record (seen w q) { locks = s.locks; records = s.records }
  seen-other p q ne = ground arith

module _ (fcntl : Fcntl) (build : ℕ → Build) (p : ℕ) where
  -- Of what process `p` sees: by the move itself, if it is its own, or else as another's move.
  moved :
      (P : Server fcntl.Locks → Type 0) (w : World fcntl.Locks) (s : Server fcntl.Locks) (q : ℕ)
      → (q ≡ p → P s)
      → P (record (seen w p) { locks = s.locks; records = s.records })
      → P (seen (put w q s) p)
  moved P w s q self other = elim (ℕ_discrete q p) [
    | yes e ↦ subst (λ x. P (seen (put w q s) x)) e (subst P (sym (seen_self w s q)) (self e))
    | no ne ↦ subst P (sym (seen-other w s q p ne)) other
  ]

  -- A step of the world is a step of a write server in it.
  writer_step :
      (P : Server fcntl.Locks → Type 0)
      → build p ≡ write_server
      → (w v : World fcntl.Locks)
      → ((s : Server fcntl.Locks) → WriterTurns.Step (kernel_of fcntl p) (seen w p) s → P s)
      → Step fcntl build w v
      → P (seen v p)
  writer_step P b w v step (read_accept q i b' within closed) =
      moved P w _ q (λ e. absurd (cc)) (step _ (WriterTurns.foreign _ _))
  writer_step P b w v step (read_input q i given {t} b' within opened e) =
      moved P w t q (λ e. absurd (cc)) (step _ (WriterTurns.foreign _ _))
  writer_step P b w v step (write_accept q i b' closed) =
      moved P w _ q
        (λ e.
          subst (λ x. ((w.own x).requests i).conn_fd ≡ none → P (WriterTurns.connect i (seen w x)))
            (sym e) (λ c. step _ (WriterTurns.accept i c)) closed)
        (step _ (WriterTurns.foreign _ _))
  writer_step P b w v step (write_input q i given {fd} {t} b' opened e) =
      moved P w t q
        (λ same.
          subst
            (λ x.
              ((w.own x).requests i).conn_fd ≡ some fd
              → WriterTurns.turn (kernel_of fcntl x) i given (seen w x) ≡ returns t
              → P t)
            (sym same) (λ o h. step t (WriterTurns.input i given o h)) opened e)
        (step _ (WriterTurns.foreign _ _))

  -- A step of the world is a step of a read server in it.
  reader_step :
      (P : Server fcntl.Locks → Type 0)
      → build p ≡ read_server
      → (w v : World fcntl.Locks)
      → ((s : Server fcntl.Locks) → ReaderTurns.Step (kernel_of fcntl p) (seen w p) s → P s)
      → Step fcntl build w v
      → P (seen v p)
  reader_step P b w v step (write_accept q i b' closed) =
      moved P w _ q (λ e. absurd (cc)) (step _ (ReaderTurns.foreign _ _))
  reader_step P b w v step (write_input q i given {t} b' opened e) =
      moved P w t q (λ e. absurd (cc)) (step _ (ReaderTurns.foreign _ _))
  reader_step P b w v step (read_accept q i b' within closed) =
      moved P w _ q
        (λ e.
          subst (λ x. ((w.own x).requests i).conn_fd ≡ none → P (ReaderTurns.connect i (seen w x)))
            (sym e) (λ c. step _ (ReaderTurns.accept i within c)) closed)
        (step _ (ReaderTurns.foreign _ _))
  reader_step P b w v step (read_input q i given {fd} {t} b' within opened e) =
      moved P w t q
        (λ same.
          subst
            (λ x.
              ((w.own x).requests i).conn_fd ≡ some fd
              → ReaderTurns.turn (kernel_of fcntl x) i given (seen w x) ≡ returns t
              → P t)
            (sym same) (λ o h. step t (ReaderTurns.input i given within o h)) opened e)
        (step _ (ReaderTurns.foreign _ _))

  pub writer_view :
      {file : ℕ → Record} {l : fcntl.Locks} {n : ℕ} {w : World fcntl.Locks}
      → build p ≡ write_server
      → Reach fcntl build file l n w
      → WriterTurns.Reach (kernel_of fcntl p) file l (seen w p)
  writer_view b (start free) = WriterTurns.start
  writer_view {file} {l} b (later {w} {v} r st) =
      writer_step (WriterTurns.Reach (kernel_of fcntl p) file l) b w v
        (λ s step. WriterTurns.later (writer_view b r) step) st

  pub reader_view :
      {file : ℕ → Record} {l : fcntl.Locks} {n : ℕ} {w : World fcntl.Locks}
      → build p ≡ read_server
      → Reach fcntl build file l n w
      → ReaderTurns.Reach (kernel_of fcntl p) file l n (seen w p)
  reader_view b (start free) = ReaderTurns.start
  reader_view {file} {l} b (later {n} {w} {v} r st) =
      reader_step (ReaderTurns.Reach (kernel_of fcntl p) file l (suc n)) b w v
        (λ s step. ReaderTurns.later (reader_view b r) step) st
