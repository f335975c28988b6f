-- ===== src/Booking/Servers/Race.antt =====
-- The check of a lock and its setting are two calls of `fcntl`, and the server does not look at the
-- result of the second: a lock that another process takes in between is not noticed.
use system_programming_hw.Common.{
  ℕ, ◌≡◌, ◌≢◌, refl, ap, ◌∙◌, true, false, List, ◌∷◌, ◌++◌, some, update, arith,
}
use system_programming_hw.Common.Int.{pos}
use system_programming_hw.Text.{atoi, c_string, codes}
use system_programming_hw.Booking.Session.{
  Kernel, Server, slot, returns, overruns, received, fine, f_wrlck, f_unlck, show_items, obj_names,
}
use system_programming_hw.Booking.Writer.{
  handle_read, handle_buffer, handle_text, identify, has_newline,
}
use system_programming_hw.Booking.Writer.Turns.{turn, answer}
use system_programming_hw.Booking.Writer.Answers.{fine-Advanced}
use system_programming_hw.Booking.Writer.Inv.{holds}
use system_programming_hw.Booking.Servers.{Fcntl}

module _ (fcntl : Fcntl) (p : ℕ) where
  open fcntl use {Locks, held, getlk, setlk}

  -- `fcntl` as process `p` calls it in a turn during which other processes change the locks: the
  -- locks as the check finds them, and as the setting finds them.
  abbrev pub racing : Kernel
  racing = record {
    Locks = Locks × Locks;
    getlk = λ l k t. getlk l.0 p k t;
    setlk = λ l k t. (l.0, setlk l.1 p k t);
  }

  -- A lock that another process has is refused.
  wrlck_refused : (l : Locks) (q k : ℕ) → p ≢ q → held l q k ≡ f_wrlck → setlk l p k f_wrlck ≡ l
  wrlck_refused l q k ne h =
      fcntl.setlk_refuse l p k f_wrlck
        (λ free. let c = fcntl.getlk_free l p k f_wrlck free q ne in absurd (ground arith))

  module _ (s : Server (Locks × Locks)) (i k : ℕ) where
    -- What `identify` leaves where the check has found no lock.
    abbrev admitted : List ℕ → Server (Locks × Locks)
    admitted buf =
        let shown = show_items obj_names (s.records k).booking_state ++ codes "\n" in
        record s {
          requests =
              update (update s.requests i (record (s.requests i) { id = atoi buf })) i
                (record (s.requests i) { id = atoi buf; buf = shown });
          self_lock = update s.self_lock k (pos 1);
          locks = (s.locks.0, setlk s.locks.1 p k f_wrlck);
        }

    admits :
        (buf : List ℕ)
        → slot (atoi buf) ≡ some k
        → getlk s.locks.0 p k f_wrlck ≡ f_unlck
        → s.self_lock k ≡ pos 0
        → identify racing i buf s ≡ returns (fine, admitted buf)
    unfolding identify
    admits buf at free mark = rw (at, identify, free, mark) refl

    by_stage :
        (c : ℕ) (cs : List ℕ)
        → (s.requests i).wait_for_write ≡ true
        → overruns (c_string (c ∷ cs)) ≡ false
        → has_newline (c_string (c ∷ cs)) ≡ true
        → handle_read racing i (received (c ∷ cs)) s ≡ identify racing i (c_string (c ∷ cs)) s
    unfolding handle_read handle_buffer handle_text
    by_stage c cs w fits n = ground arith

    admits_turn :
        (c : ℕ) (cs : List ℕ)
        → (s.requests i).wait_for_write ≡ true
        → overruns (c_string (c ∷ cs)) ≡ false
        → has_newline (c_string (c ∷ cs)) ≡ true
        → slot (atoi (c_string (c ∷ cs))) ≡ some k
        → getlk s.locks.0 p k f_wrlck ≡ f_unlck
        → s.self_lock k ≡ pos 0
        → turn racing i (received (c ∷ cs)) s
          ≡ returns (answer i fine (admitted (c_string (c ∷ cs))))
    unfolding turn
    admits_turn c cs w fits n at free mark =
        rw (by_stage c cs w fits n, admits (c_string (c ∷ cs)) at free mark, turn)

    -- A write lock that another process sets on record `k` between the check and the setting, by a
    -- turn for a connection in its first stage that names this record in less than 512 bytes, is not noticed: the turn
    -- returns, its connection edits the record, and the other process has its lock as before.
    pub race_unnoticed :
        (q fd c : ℕ) (cs : List ℕ)
        → p ≢ q
        → (s.requests i).conn_fd ≡ some fd
        → (s.requests i).wait_for_write ≡ true
        → overruns (c_string (c ∷ cs)) ≡ false
        → has_newline (c_string (c ∷ cs)) ≡ true
        → slot (atoi (c_string (c ∷ cs))) ≡ some k
        → getlk s.locks.0 p k f_wrlck ≡ f_unlck
        → s.self_lock k ≡ pos 0
        → held s.locks.1 q k ≡ f_wrlck
        → (t : Server (Locks × Locks)) × (turn racing i (received (c ∷ cs)) s ≡ returns t)
          × (holds (t.requests i) ≡ some k)
          × (t.locks.1 ≡ s.locks.1)
    race_unnoticed q fd c cs ne opened w fits n at free mark h =
        let m = admitted (c_string (c ∷ cs)) in
        let a = fine-Advanced i m (ground arith) in
        let k_id : slot ((answer i fine m).requests i).id ≡ some k =
          ap slot a.same_id ∙ ground arith in
        (
          answer i fine m,
          admits_turn c cs w fits n at free mark,
          ground (arith, a.same_fd, a.reads),
          ap (λ l. l.1) a.kept ∙ wrlck_refused s.locks.1 q k ne h,
        )
