-- ===== src/Booking/Reader/Effect.antt =====
-- What a turn of the read server does to the connection, to the count of readers and to the locks.
use system_programming_hw.Common.{
  ℕ, ◌≡◌, ◌≢◌, refl, ◌∙◌, ap, true, false, List, [], ◌∷◌, none, some, ◌⊎◌, if◌then◌else◌, update,
  arith, Option-cases, Bool-cases, inl, inr,
}
use system_programming_hw.Common.Int.{pos, ◌+ℤ◌, ◌-ℤ◌, wrap32}
use system_programming_hw.Text.{atoi, c_string, codes, starts_with, same_text}
use system_programming_hw.Booking.Parse.{is_zero}
use system_programming_hw.Booking.Session.{
  Kernel, Input, failed, received, Ret, rejected, locked, interrupted, Server, slot, Outcome, exits,
  stray, returns, overruns, overflows, f_rdlck, f_unlck,
}
use system_programming_hw.Booking.Writer.{has_newline}
use system_programming_hw.Booking.Reader.{
  handle_read, handle_buffer, handle_interrupt, handle_text, look_up, leave, is_write_lock,
}
use system_programming_hw.Booking.Reader.Turns.{answer, turn}
use system_programming_hw.Booking.Reader.Answers.{
  holds, IsTidy, Closed, answer-Closed, exit-Closed, Advanced, fine-Advanced, shown-ne-exit,
}

module _ (kernel : Kernel) where
  -- What a turn for connection `i` does to the holders, the counts and the locks.
  pub data Locking (s t : Server kernel.Locks) (i : ℕ) : Type 0 where
    idle :
        ((holds (t.requests i) ≡ none) ⊎ (holds (t.requests i) ≡ holds (s.requests i)))
        → t.self_lock ≡ s.self_lock
        → t.locks ≡ s.locks
        → Locking s t i
    takes :
        (k : ℕ)
        → holds (s.requests i) ≡ none
        → holds (t.requests i) ≡ some k
        → t.self_lock ≡ update s.self_lock k (wrap32 (s.self_lock k +ℤ pos 1))
        → t.locks ≡ kernel.setlk s.locks k f_rdlck
        → is_write_lock (kernel.getlk s.locks k f_rdlck) ≡ false
        → Locking s t i
    gives :
        (k : ℕ)
        → holds (s.requests i) ≡ some k
        → holds (t.requests i) ≡ none
        → t.self_lock ≡ update s.self_lock k (wrap32 (s.self_lock k -ℤ pos 1))
        → t.locks ≡ (
            if is_zero (wrap32 (s.self_lock k -ℤ pos 1))
            then kernel.setlk s.locks k f_unlck
            else s.locks)
        → Locking s t i

  pub record Effect (s t : Server kernel.Locks) (i : ℕ) : Type 0 where
    pub others : (j : ℕ) → i ≢ j → t.requests j ≡ s.requests j
    pub tidy : IsTidy (t.requests i)
    pub locking : Locking s t i

  module _ {s m t : Server kernel.Locks} {i : ℕ}
      (same : (j : ℕ) → i ≢ j → m.requests j ≡ s.requests j) where
    Closed-idle : Closed i m t → m.self_lock ≡ s.self_lock → m.locks ≡ s.locks → Effect s t i
    Closed-idle c e f = record {
      others = λ j ne. c.others j ne ∙ same j ne;
      tidy = record { held = λ h. ground (arith, c.shut); blank = λ _. c.blank };
      locking = idle (inl (ground (arith, c.shut))) (c.counts ∙ e) (c.kept ∙ f);
    }

    Closed-gives :
        (k : ℕ)
        → Closed i m t
        → holds (s.requests i) ≡ some k
        → m.self_lock ≡ update s.self_lock k (wrap32 (s.self_lock k -ℤ pos 1))
        → m.locks ≡ (
            if is_zero (wrap32 (s.self_lock k -ℤ pos 1))
            then kernel.setlk s.locks k f_unlck
            else s.locks)
        → Effect s t i
    Closed-gives k c h e f = record {
      others = λ j ne. c.others j ne ∙ same j ne;
      tidy = record { held = λ h. ground (arith, c.shut); blank = λ _. c.blank };
      locking = gives k h (ground (arith, c.shut)) (c.counts ∙ e) (c.kept ∙ f);
    }

    Advanced-takes :
        (k fd : ℕ)
        → Advanced i m t
        → (m.requests i).conn_fd ≡ some fd
        → slot (m.requests i).id ≡ some k
        → holds (s.requests i) ≡ none
        → m.self_lock ≡ update s.self_lock k (wrap32 (s.self_lock k +ℤ pos 1))
        → m.locks ≡ kernel.setlk s.locks k f_rdlck
        → is_write_lock (kernel.getlk s.locks k f_rdlck) ≡ false
        → Effect s t i
    Advanced-takes k fd a o h f e g w =
        let at : slot (t.requests i).id ≡ some k = ap slot a.same_id ∙ h in
        record {
          others = λ j ne. a.others j ne ∙ same j ne;
          tidy = record {
            held = λ _. (k, at);
            blank = λ h. absurd (ground (arith, a.same_fd, a.reads));
          };
          locking = takes k f (ground (arith, a.same_fd, a.reads)) (a.counts ∙ e) (a.kept ∙ g) w;
        }

  module _ (i : ℕ) (s : Server kernel.Locks) where
    -- A result of `handle_read` that `main` turns into an effect, or `ERR_EXIT`.
    abbrev Leads : Outcome (Ret × Server kernel.Locks) → Type 0
    Leads exits = Unit
    Leads stray = ⊥
    Leads (returns (ret, m)) = Effect s (answer i ret m) i

    module _ {fd : ℕ} (tidy : IsTidy (s.requests i))
        (opened : (s.requests i).conn_fd ≡ some fd) where
      look_up-Leads : (buf : List ℕ) → (s.requests i).done ≡ false → Leads (look_up kernel i buf s)
      unfolding look_up
      look_up-Leads buf waiting = elim (Option-cases (slot (atoi buf))) [
        | inl none_such ↦
            rw (none_such, look_up, Leads)
              (Closed-idle (λ j ne. ground arith) (answer-Closed i rejected _ refl) refl refl)
        | inr (k, at) ↦ elim (Bool-cases (is_write_lock (kernel.getlk s.locks k f_rdlck))) [
          | inl busy ↦
              rw (at, busy, look_up, Leads)
                (Closed-idle (λ j ne. ground arith) (answer-Closed i locked _ refl) refl refl)
          | inr free ↦
              rw (at, free, look_up, Leads)
                (Advanced-takes (λ j ne. ground arith) k fd
                  (fine-Advanced i _ (ground (arith, shown-ne-exit (s.records k).booking_state)))
                  (ground arith) (ground arith) (ground arith) refl refl (ground arith))
        ]
      ]

      leave-Leads :
          (k : ℕ) (buf : List ℕ)
          → (s.requests i).done ≡ true
          → slot (s.requests i).id ≡ some k
          → Leads (returns (leave kernel i k buf s))
      unfolding leave same_text
      leave-Leads k buf reading at = elim (Bool-cases (starts_with (codes "Exit") buf)) [
        | inl out ↦
            rw (out, leave, Leads)
              (Closed-gives (λ j ne. ground arith) k (exit-Closed i _ (ground arith)) (ground arith)
                refl refl)
        | inr other ↦
            rw (other, leave, Leads)
              (Closed-idle (λ j ne. refl) (answer-Closed i rejected s refl) refl refl)
      ]

      handle_text-Leads : (buf : List ℕ) → Leads (handle_text kernel i buf s)
      unfolding handle_text
      handle_text-Leads buf = elim (Bool-cases (s.requests i).done) [
        | inr waiting ↦ rw (waiting, handle_text, Leads) (look_up-Leads buf waiting)
        | inl reading ↦
            let (k, at) = tidy.held (ground arith) in
            rw (reading, handle_text, at, Leads) (leave-Leads k buf reading at)
      ]

      handle_interrupt-Leads : Leads (handle_interrupt kernel i s)
      unfolding handle_interrupt
      handle_interrupt-Leads = elim (Bool-cases (is_zero (s.requests i).id)) [
        | inl zero_id ↦
            rw (zero_id, handle_interrupt, Leads)
              (Closed-idle (λ j ne. refl) (answer-Closed i interrupted s refl) refl refl)
        | inr some_id ↦
            let (k, at) = tidy.held (ground (arith, tidy.blank)) in
            rw (some_id, at, handle_interrupt, Leads)
              (Closed-gives (λ j ne. refl) k (answer-Closed i interrupted _ refl)
                (ground (arith, tidy.blank)) refl refl)
      ]

      handle_buffer-Leads : (buf : List ℕ) → Leads (handle_buffer kernel i buf s)
      unfolding handle_buffer
      handle_buffer-Leads buf = elim (Bool-cases (has_newline buf)) [
        | inl text ↦ rw (text, handle_buffer, Leads) (handle_text-Leads buf)
        | inr bare ↦ elim (Bool-cases (starts_with (255 ∷ 244 ∷ []) buf)) [
          | inl iac ↦ rw (bare, iac, handle_buffer, Leads) handle_interrupt-Leads
          | inr none_such ↦ rw (bare, none_such, handle_buffer, Leads) tt
        ]
      ]

      handle_read-Leads :
          (given : Input) → overflows given ≡ false → Leads (handle_read kernel i given s)
      unfolding handle_read answer c_string
      handle_read-Leads failed fits = record {
        others = λ j ne. refl;
        tidy = tidy;
        locking = idle (inr refl) refl refl;
      }
      handle_read-Leads (received []) fits =
          Closed-idle (λ j ne. refl) (answer-Closed i rejected s refl) refl refl
      handle_read-Leads (received (c ∷ cs)) fits =
          rw (fits, handle_read, Leads) (handle_buffer-Leads (c_string (c ∷ cs)))

  -- A text that fills the buffer is read on behind its end.
  overflows-stray :
      (i : ℕ) (given : Input) (s : Server kernel.Locks)
      → overflows given ≡ true
      → turn kernel i given s ≡ stray
  unfolding turn handle_read overruns c_string
  overflows-stray i failed s over = cc
  overflows-stray i (received []) s over = cc
  overflows-stray i (received (c ∷ cs)) s over = rw (over, handle_read, turn) refl

  -- Every turn has such an effect.
  pub turn-Effect :
      (i fd : ℕ) (given : Input) (s t : Server kernel.Locks)
      → IsTidy (s.requests i)
      → (s.requests i).conn_fd ≡ some fd
      → turn kernel i given s ≡ returns t
      → Effect s t i
  unfolding turn
  turn-Effect i fd given s t tidy opened e = elim (Bool-cases (overflows given)) [
    | inl over ↦ cc (overflows-stray i given s over, e)
    | inr fits ↦
        by_outcome (handle_read kernel i given s) (handle_read-Leads i s tidy opened given fits) e
  ]
    where
      by_outcome :
          (o : Outcome (Ret × Server kernel.Locks))
          → Leads i s o
          → (elim o [ exits ↦ exits | stray ↦ stray | returns (ret, m) ↦ returns (answer i ret m) ])
            ≡ returns t
          → Effect s t i
      by_outcome exits l e = cc
      by_outcome stray l e = absurd l
      by_outcome (returns (ret, m)) l e = let q : answer i ret m ≡ t = cc in rw (← q) l
