-- ===== src/Booking/Writer/Inv.antt =====
-- Which connection of the write server holds which record.
use system_programming_hw.Common.{
  ℕ, ◌≡◌, ◌≢◌, refl, true, false, not, ◌||◌, ◌∙◌, ap, List, [], ◌∷◌, Option, none, some,
  if◌then◌else◌, update, arith, Option-cases, Bool-cases, inl, inr,
}
use system_programming_hw.Common.Int.{pos}
use system_programming_hw.Text.{atoi, c_string, starts_with}
use system_programming_hw.Booking.Parse.{myatoi, is_zero}
use system_programming_hw.Booking.Rules.{Verdict, too_many, below_zero, booked}
use system_programming_hw.Booking.Writer.Answers.{
  is_editing, Closed, answer-Closed, fine-Closed, Advanced, fine-Advanced,
}
use system_programming_hw.Booking.Session.{
  Request, Kernel, Input, failed, received, Ret, rejected, locked, interrupted, over_limit,
  negative, Server, slot, Outcome, exits, stray, returns, overruns, overflows, f_wrlck, f_unlck,
}
use system_programming_hw.Booking.Writer.{
  handle_read, handle_buffer, handle_interrupt, handle_text, identify, settle, book, is_one,
  is_unlocked, has_newline,
}
use system_programming_hw.Booking.Writer.Turns.{answer, turn}

-- The record that a connection holds.
abbrev pub holds : Request → Option ℕ
holds r = if is_editing r then slot r.id else none

pub record Inv {L : Type 0} (s : Server L) : Type 0 where
  pub held :
      (i : ℕ) → is_editing (s.requests i) ≡ true → (k : ℕ) × (slot (s.requests i).id ≡ some k)
  pub marked : (i k : ℕ) → holds (s.requests i) ≡ some k → s.self_lock k ≡ pos 1
  pub unique : (i j k : ℕ) → holds (s.requests i) ≡ some k → holds (s.requests j) ≡ some k → i ≡ j
  pub blank : (i : ℕ) → is_editing (s.requests i) ≡ false → (s.requests i).id ≡ pos 0

-- What a turn for connection `i` does to the connections, the marks and the locks.
pub data Change (kernel : Kernel) (s t : Server kernel.Locks) (i : ℕ) : Type 0 where
  same :
      t.requests ≡ s.requests → t.self_lock ≡ s.self_lock → t.locks ≡ s.locks → Change kernel s t i
  quiet :
      ((j : ℕ) → i ≢ j → t.requests j ≡ s.requests j)
      → is_editing (t.requests i) ≡ false
      → (t.requests i).id ≡ pos 0
      → t.self_lock ≡ s.self_lock
      → t.locks ≡ s.locks
      → Change kernel s t i
  acquire :
      (k : ℕ)
      → ((j : ℕ) → i ≢ j → t.requests j ≡ s.requests j)
      → is_one (s.self_lock k) ≡ false
      → is_editing (t.requests i) ≡ true
      → slot (t.requests i).id ≡ some k
      → t.self_lock ≡ update s.self_lock k (pos 1)
      → is_unlocked (kernel.getlk s.locks k f_wrlck) ≡ true
      → t.locks ≡ kernel.setlk s.locks k f_wrlck
      → Change kernel s t i
  release :
      (k : ℕ)
      → ((j : ℕ) → i ≢ j → t.requests j ≡ s.requests j)
      → holds (s.requests i) ≡ some k
      → is_editing (t.requests i) ≡ false
      → (t.requests i).id ≡ pos 0
      → t.self_lock ≡ update s.self_lock k (pos 0)
      → t.locks ≡ kernel.setlk s.locks k f_unlck
      → Change kernel s t i

module _ {kernel : Kernel} {s m t : Server kernel.Locks} {i : ℕ}
    (same : (j : ℕ) → i ≢ j → m.requests j ≡ s.requests j) where
  Closed-quiet : Closed i m t → m.self_lock ≡ s.self_lock → m.locks ≡ s.locks → Change kernel s t i
  Closed-quiet c e f =
      quiet (λ j ne. c.others j ne ∙ same j ne) (ground (arith, c.shut)) c.blank (c.marks ∙ e)
        (c.kept ∙ f)

  Closed-release :
      (k : ℕ)
      → Closed i m t
      → holds (s.requests i) ≡ some k
      → m.self_lock ≡ update s.self_lock k (pos 0)
      → m.locks ≡ kernel.setlk s.locks k f_unlck
      → Change kernel s t i
  Closed-release k c h e f =
      release k (λ j ne. c.others j ne ∙ same j ne) h (ground (arith, c.shut)) c.blank (c.marks ∙ e)
        (c.kept ∙ f)

  Advanced-acquire :
      (k fd : ℕ)
      → Advanced i m t
      → (m.requests i).conn_fd ≡ some fd
      → slot (m.requests i).id ≡ some k
      → is_one (s.self_lock k) ≡ false
      → m.self_lock ≡ update s.self_lock k (pos 1)
      → is_unlocked (kernel.getlk s.locks k f_wrlck) ≡ true
      → m.locks ≡ kernel.setlk s.locks k f_wrlck
      → Change kernel s t i
  Advanced-acquire k fd a o h f e g l =
      acquire k (λ j ne. a.others j ne ∙ same j ne) f (ground (arith, a.same_fd, a.reads))
        (ap slot a.same_id ∙ h) (a.marks ∙ e) g (a.kept ∙ l)

module _ (kernel : Kernel) (i : ℕ) (s : Server kernel.Locks) where
  -- A result of `handle_read` that `main` turns into a change, or `ERR_EXIT`.
  abbrev pub Leads : Outcome (Ret × Server kernel.Locks) → Type 0
  Leads exits = Unit
  Leads stray = ⊥
  Leads (returns (ret, m)) = Change kernel s (answer i ret m) i

  module _ {fd : ℕ} (inv : Inv s) (opened : (s.requests i).conn_fd ≡ some fd) where
    identify-Leads :
        (buf : List ℕ) → (s.requests i).wait_for_write ≡ true → Leads (identify kernel i buf s)
    unfolding identify
    identify-Leads buf waiting = elim (Option-cases (slot (atoi buf))) [
      | inl none_such ↦
          rw (none_such, identify, Leads)
            (Closed-quiet (λ j ne. ground arith) (answer-Closed i rejected _ refl) refl refl)
      | inr (k, at) ↦
          elim (Bool-cases
            (not (is_unlocked (kernel.getlk s.locks k f_wrlck)) || is_one (s.self_lock k))) [
              | inl busy ↦
                  rw (at, busy, identify, Leads)
                    (Closed-quiet (λ j ne. ground arith) (answer-Closed i locked _ refl) refl refl)
              | inr free ↦
                  rw (at, free, identify, Leads)
                    (Advanced-acquire (λ j ne. ground arith) k fd (fine-Advanced i _ (ground arith))
                      (ground arith) (ground arith) (ground arith) refl (ground arith) refl)
            ]
    ]

    settle-Leads :
        (k : ℕ) (v : Verdict)
        → (s.requests i).wait_for_write ≡ false
        → slot (s.requests i).id ≡ some k
        → Leads (returns (settle kernel i k v s))
    unfolding settle
    settle-Leads k too_many ready at =
        Closed-release (λ j ne. refl) k (answer-Closed i over_limit _ refl) (ground arith) refl refl
    settle-Leads k below_zero ready at =
        Closed-release (λ j ne. refl) k (answer-Closed i negative _ refl) (ground arith) refl refl
    settle-Leads k (booked out) ready at =
        Closed-release (λ j ne. ground arith) k (fine-Closed i _ (ground arith)) (ground arith) refl
          refl

    book-Leads :
        (k : ℕ) (buf : List ℕ)
        → (s.requests i).wait_for_write ≡ false
        → slot (s.requests i).id ≡ some k
        → Leads (book kernel i k buf s)
    unfolding book
    book-Leads k buf ready at = elim (Option-cases (myatoi buf)) [
      | inl bad ↦
          rw (bad, book, Leads)
            (Closed-release (λ j ne. refl) k (answer-Closed i rejected _ refl) (ground arith) refl
              refl)
      | inr (nums, good) ↦ rw (good, book, Leads) (settle-Leads k _ ready at)
    ]

    handle_text-Leads : (buf : List ℕ) → Leads (handle_text kernel i buf s)
    unfolding handle_text
    handle_text-Leads buf = elim (Bool-cases (s.requests i).wait_for_write) [
      | inl waiting ↦ rw (waiting, handle_text, Leads) (identify-Leads buf waiting)
      | inr ready ↦
          let (k, at) = inv.held i (ground arith) in
          rw (ready, handle_text, at, Leads) (book-Leads k buf ready at)
    ]

    handle_interrupt-Leads : Leads (handle_interrupt kernel i s)
    unfolding handle_interrupt
    handle_interrupt-Leads = elim (Bool-cases (is_zero (s.requests i).id)) [
      | inl zero_id ↦
          rw (zero_id, handle_interrupt, Leads)
            (Closed-quiet (λ j ne. refl) (answer-Closed i interrupted s refl) refl refl)
      | inr some_id ↦
          let (k, at) = inv.held i (ground (arith, inv.blank i)) in
          rw (some_id, at, handle_interrupt, Leads)
            (Closed-release (λ j ne. refl) k (answer-Closed i interrupted _ refl)
              (ground (arith, inv.blank i)) refl refl)
    ]

    handle_buffer-Leads : (buf : List ℕ) → Leads (handle_buffer kernel i buf s)
    unfolding handle_buffer
    handle_buffer-Leads buf = elim (Bool-cases (has_newline buf)) [
      | inl text ↦ rw (text, handle_buffer, Leads) (handle_text-Leads buf)
      | inr bare ↦ elim (Bool-cases (starts_with (255 ∷ 244 ∷ []) buf)) [
        | inl iac ↦ rw (bare, iac, handle_buffer, Leads) handle_interrupt-Leads
        | inr none_such ↦ rw (bare, none_such, handle_buffer, Leads) tt
      ]
    ]

    pub handle_read-Leads :
        (given : Input) → overflows given ≡ false → Leads (handle_read kernel i given s)
    unfolding handle_read answer c_string
    handle_read-Leads failed fits = same refl refl refl
    handle_read-Leads (received []) fits =
        Closed-quiet (λ j ne. refl) (answer-Closed i rejected s refl) refl refl
    handle_read-Leads (received (c ∷ cs)) fits =
        rw (fits, handle_read, Leads) (handle_buffer-Leads (c_string (c ∷ cs)))

-- A text that fills the buffer is read on behind its end.
pub overflows-stray :
    (kernel : Kernel) (i : ℕ) (given : Input) (s : Server kernel.Locks)
    → overflows given ≡ true
    → turn kernel i given s ≡ stray
unfolding turn handle_read overruns c_string
overflows-stray kernel i failed s over = cc
overflows-stray kernel i (received []) s over = cc
overflows-stray kernel i (received (c ∷ cs)) s over = rw (over, handle_read, turn) refl

-- Every turn is a change.
pub turn-Change :
    (kernel : Kernel) (i fd : ℕ) (given : Input) (s t : Server kernel.Locks)
    → Inv s
    → (s.requests i).conn_fd ≡ some fd
    → turn kernel i given s ≡ returns t
    → Change kernel s t i
unfolding turn
turn-Change kernel i fd given s t inv opened e = elim (Bool-cases (overflows given)) [
  | inl over ↦ cc (overflows-stray kernel i given s over, e)
  | inr fits ↦
      by_outcome (handle_read kernel i given s) (handle_read-Leads kernel i s inv opened given fits)
        e
]
  where
    by_outcome :
        (o : Outcome (Ret × Server kernel.Locks))
        → Leads kernel i s o
        → (elim o [ exits ↦ exits | stray ↦ stray | returns (ret, m) ↦ returns (answer i ret m) ])
          ≡ returns t
        → Change kernel s t i
    by_outcome exits l e = cc
    by_outcome stray l e = absurd l
    by_outcome (returns (ret, m)) l e = let q : answer i ret m ≡ t = cc in rw (← q) l
