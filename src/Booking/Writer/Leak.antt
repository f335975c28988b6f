-- ===== src/Booking/Writer/Leak.antt =====
-- A client of the write server that closes its connection while it holds a record: the record
-- stays marked, and no later step frees it.
use mathlib.Core.Path.{subst}
use system_programming_hw.Common.{
  ℕ, ◌≡◌, ◌≢◌, refl, ap, ◌∙◌, true, false, List, [], ◌∷◌, some, arith, ℕ_discrete,
}
use system_programming_hw.Common.Int.{pos}
use system_programming_hw.Text.{atoi, c_string}
use system_programming_hw.Booking.Session.{
  Record, Kernel, received, rejected, locked, Server, slot, returns, set_request, overruns,
}
use system_programming_hw.Booking.Writer.{
  handle_read, identify, handle_text, handle_buffer, has_newline,
}
use system_programming_hw.Booking.Writer.Turns.{
  turn, connect, Step, accept, input, foreign, Reach, answer,
}
use system_programming_hw.Booking.Writer.Answers.{answer-Closed}
use system_programming_hw.Booking.Writer.Inv.{
  Inv, Change, same, quiet, acquire, release, holds, turn-Change,
}
use system_programming_hw.Booking.Writer.Exclusion.{Step-Inv, Reach-Inv, by_index}

-- Record `k` is marked as locked and no connection holds it.
pub record Stuck {L : Type 0} (k : ℕ) (s : Server L) : Type 0 where
  pub marked : s.self_lock k ≡ pos 1
  pub unheld : (j : ℕ) → holds (s.requests j) ≢ some k

module _ {kernel : Kernel} {s t : Server kernel.Locks} {i : ℕ} (k : ℕ) (stuck : Stuck k s) where
  Change-marked : Change kernel s t i → t.self_lock k ≡ pos 1
  Change-marked (same r m l) = rw m stuck.marked
  Change-marked (quiet o c b m l) = rw m stuck.marked
  Change-marked (acquire k' o f c at m g l) = rw m (ground (arith, stuck.marked))
  Change-marked (release k' o h c b m l) = elim (ℕ_discrete k' k) [
    | yes e ↦ absurd (stuck.unheld i (h ∙ ap some e))
    | no ne ↦ rw m (ground (arith, stuck.marked))
  ]

  Change-unheld : Change kernel s t i → (j : ℕ) → holds (t.requests j) ≢ some k
  Change-unheld (same r m l) j = rw r (stuck.unheld j)
  Change-unheld (quiet o c b m l) j =
      by_index (λ r. holds r ≢ some k) o (λ h. ground arith) (λ x _. stuck.unheld x) j
  Change-unheld (acquire k' o f c at m g l) j =
      by_index (λ r. holds r ≢ some k) o (λ h. ground (arith, stuck.marked)) (λ x _. stuck.unheld x)
        j
  Change-unheld (release k' o h c b m l) j =
      by_index (λ r. holds r ≢ some k) o (λ h. ground arith) (λ x _. stuck.unheld x) j

  Change-Stuck : Change kernel s t i → Stuck k t
  Change-Stuck c = record { marked = Change-marked c; unheld = Change-unheld c }

module _ (kernel : Kernel) where
  -- Any number of steps.
  pub data Steps (s : Server kernel.Locks) : Server kernel.Locks → Type 0 where
    done : Steps s s
    more : {t u : Server kernel.Locks} → Steps s t → Step kernel t u → Steps s u

  Steps-Inv : {s t : Server kernel.Locks} → Inv s → Steps s t → Inv t
  Steps-Inv inv done = inv
  Steps-Inv inv (more r st) = Step-Inv kernel (Steps-Inv inv r) st

  Step-Stuck : {s t : Server kernel.Locks} (k : ℕ) → Inv s → Stuck k s → Step kernel s t → Stuck k t
  unfolding connect
  Step-Stuck {s} k inv stuck (accept i closed) =
      Change-Stuck {kernel = kernel} {t = connect i s} {i = i} k stuck
        (quiet (λ j ne. ground arith) (ground arith) (ground (arith, inv.blank i)) refl refl)
  Step-Stuck {s} {t} k inv stuck (input i given {fd} opened e) =
      Change-Stuck k stuck (turn-Change kernel i fd given s t inv opened e)
  Step-Stuck k inv stuck (foreign l file) = record { marked = stuck.marked; unheld = stuck.unheld }

  Steps-Stuck : {s t : Server kernel.Locks} (k : ℕ) → Inv s → Stuck k s → Steps s t → Stuck k t
  Steps-Stuck k inv stuck done = stuck
  Steps-Stuck k inv stuck (more r st) =
      Step-Stuck k (Steps-Inv inv r) (Steps-Stuck k inv stuck r) st

  -- End of file on a connection that holds record `k`.
  eof-Stuck :
      (i k : ℕ) (s t : Server kernel.Locks)
      → Inv s
      → holds (s.requests i) ≡ some k
      → turn kernel i (received []) s ≡ returns t
      → Stuck k t
  unfolding turn
  eof-Stuck i k s t inv h e =
      let c = answer-Closed i rejected s refl in
      let q : answer i rejected s ≡ t = cc in
      subst (Stuck k) q (record {
        marked = ap (λ f. f k) c.marks ∙ inv.marked i k h;
        unheld =
            by_index (λ r. holds r ≢ some k) c.others (λ hi. ground (arith, c.shut))
              (λ j ne hj. ne (inv.unique i j k h hj));
      })

  refuses-Stuck :
      (i k c : ℕ) (cs : List ℕ) (s : Server kernel.Locks)
      → Stuck k s
      → (s.requests i).wait_for_write ≡ true
      → overruns (c_string (c ∷ cs)) ≡ false
      → has_newline (c_string (c ∷ cs)) ≡ true
      → slot (atoi (c_string (c ∷ cs))) ≡ some k
      → handle_read kernel i (received (c ∷ cs)) s
        ≡ returns
            (locked, set_request i (record (s.requests i) { id = atoi (c_string (c ∷ cs)) }) s)
  unfolding handle_read
  refuses-Stuck i k c cs s stuck w fits n at =
      rw (fits, n, handle_buffer, w, handle_text, at, identify) (ground (arith, stuck.marked))

  -- In a reachable state an open connection that holds record `k` is closed by its client: after
  -- any further steps, every connection in the first stage that sends a text with a newline and the
  -- id of that record, in less than 512 bytes, is answered that it is locked.
  pub disconnect_leaks :
      {file : ℕ → Record} {l : kernel.Locks} {s t u : Server kernel.Locks} {fd : ℕ} (i k : ℕ)
      → Reach kernel file l s
      → (s.requests i).conn_fd ≡ some fd
      → holds (s.requests i) ≡ some k
      → turn kernel i (received []) s ≡ returns t
      → Steps t u
      → (j c : ℕ) (cs : List ℕ) → (u.requests j).wait_for_write ≡ true
      → overruns (c_string (c ∷ cs)) ≡ false
      → has_newline (c_string (c ∷ cs)) ≡ true
      → slot (atoi (c_string (c ∷ cs))) ≡ some k
      → handle_read kernel j (received (c ∷ cs)) u
        ≡ returns
            (locked, set_request j (record (u.requests j) { id = atoi (c_string (c ∷ cs)) }) u)
  disconnect_leaks {s} {t} {u} i k r opened h e st j c cs =
      let inv = Reach-Inv kernel r in
      let inv_t = Step-Inv kernel inv (input i (received []) opened e) in
      refuses-Stuck j k c cs u (Steps-Stuck k inv_t (eof-Stuck i k s t inv h e) st)
