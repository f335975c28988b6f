-- ===== src/Threads/Scheduler.antt =====
-- HW3/scheduler.c: `scheduler`, from the return of `setjmp` to the last `longjmp`, over the two
-- queues. The first `rq_size` entries of `ready_queue` are a list, and so are those of
-- `waiting_queue`.
pub mod Laws
pub mod Progress
use system_programming_hw.Common.{
  ℕ, zero, suc, ◌+◌, ◌-◌, Bool, true, false, List, [], ◌∷◌, ◌++◌, Option, none, some, ◌==◌, length,
  if◌then◌else◌,
}

-- Why the scheduler has been entered: YIELD, READ and EXIT.
pub data Switch : Type 0 where
  yields : Switch
  reads : Switch
  exits : Switch

pub record Queues {ℓ} (A : Type ℓ) : Type ℓ where
  pub ready : List A
  pub current : ℕ
  pub waiting : List A

-- All threads are done; no waiting thread has become ready in any round of polling that was
-- observed; or the current thread goes on.
pub data Result {ℓ} (A : Type ℓ) : Type ℓ where
  finished : Result A
  polling : Queues A → Result A
  resumes : Queues A → Result A

module _ {ℓ} {A : Type ℓ} where
  -- The waiting threads whose file `poll` reports as readable, and the others.
  unfoldable pub woken : (A → Bool) → List A → List A
  woken readable [] = []
  woken readable (x ∷ xs) = if readable x then x ∷ woken readable xs else woken readable xs

  unfoldable pub still_waiting : (A → Bool) → List A → List A
  still_waiting readable [] = []
  still_waiting readable (x ∷ xs) =
      if readable x then still_waiting readable xs else x ∷ still_waiting readable xs

  -- The `for` over the waiting queue.
  unfoldable pub wake : (A → Bool) → Queues A → Queues A
  unfolding woken still_waiting
  wake readable q = record q {
    ready = q.ready ++ woken readable q.waiting;
    waiting = still_waiting readable q.waiting;
  }

  -- The last entry of a queue that begins with `x`, and the queue without it.
  unfoldable pub last_of : A → List A → A
  last_of x [] = x
  last_of x (y ∷ ys) = last_of y ys

  unfoldable pub but_last : A → List A → List A
  but_last x [] = []
  but_last x (y ∷ ys) = x ∷ but_last y ys

  -- The current thread, and `ready_queue[rq_current] = ready_queue[rq_size - 1]; rq_size--`.
  unfoldable pub take_out : List A → ℕ → Option (A × List A)
  unfolding last_of but_last
  take_out [] i = none
  take_out (x ∷ []) zero = some (x, [])
  take_out (x ∷ y ∷ ys) zero = some (x, last_of y ys ∷ but_last y ys)
  take_out (x ∷ ys) (suc i) = elim (take_out ys i) [
    | none ↦ none
    | some (t, rest) ↦ some (t, x ∷ rest)
  ]

  -- What each kind of switch does to the queues; `none` where no thread is current.
  unfoldable pub leave : Switch → Queues A → Option (Queues A)
  unfolding take_out
  leave yields q = some (record q { current = q.current + 1 })
  leave reads q = elim (take_out q.ready q.current) [
    | none ↦ none
    | some (t, rest) ↦ some (record q { ready = rest; waiting = q.waiting ++ t ∷ [] })
  ]
  leave exits q = elim (take_out q.ready q.current) [
    | none ↦ none
    | some (t, rest) ↦ some (record q { ready = rest })
  ]

  -- `if (rq_current == rq_size) rq_current = 0`.
  abbrev pub wrap_around : Queues A → Queues A
  wrap_around q = record q { current = if q.current == length q.ready then 0 else q.current }

  -- The loop that polls until a waiting thread is ready, a round for each entry of the list.
  unfoldable pub poll_loop : List (A → Bool) → Queues A → Result A
  unfolding wake
  poll_loop [] q = elim q.ready [ [] ↦ polling q | _ ∷ _ ↦ resumes (wrap_around q) ]
  poll_loop (readable ∷ rounds) q =
      let again = poll_loop rounds (wake readable q) in
      elim q.ready [ [] ↦ again | _ ∷ _ ↦ resumes (wrap_around q) ]

  -- The part after the switch.
  unfoldable pub dispatch : List (A → Bool) → Queues A → Result A
  unfolding poll_loop
  dispatch rounds q = elim q.ready [
    | [] ↦ elim q.waiting [ [] ↦ finished | _ ∷ _ ↦ poll_loop rounds q ]
    | _ ∷ _ ↦ resumes (wrap_around q)
  ]

  unfoldable pub scheduler : Switch → (A → Bool) → List (A → Bool) → Queues A → Option (Result A)
  unfolding wake leave dispatch
  scheduler type readable rounds q = elim (leave type (wake readable q)) [
    | none ↦ none
    | some q' ↦ some (dispatch rounds q')
  ]
