-- ===== src/Threads/Scheduler/Laws.antt =====
-- The scheduler keeps every thread and points at one that is ready.
use mathlib.Core.List.{Perm, append_assoc, append-nil, perm_middle}
use mathlib.Core.List.Perm
use system_programming_hw.Common.{
  ℕ, zero, suc, ◌+◌, ◌≤◌, ◌<◌, ◌≡◌, refl, sym, ap, ◌∙◌, Bool, List, [], ◌∷◌, ◌++◌, some, length,
  get_elem?, arith, length-append, Bool-cases, inl, inr,
}
use system_programming_hw.Threads.Scheduler.{
  Switch, yields, reads, exits, Queues, Result, finished, polling, resumes, woken, still_waiting,
  wake, last_of, but_last, take_out, leave, poll_loop, dispatch, scheduler,
}

module _ {ℓ} {A : Type ℓ} where
  -- All threads, the ready ones first.
  abbrev pub threads : Queues A → List A
  threads q = q.ready ++ q.waiting

  woken-perm :
      (readable : A → Bool) (xs : List A) → Perm (woken readable xs ++ still_waiting readable xs) xs
  unfolding woken still_waiting
  woken-perm readable [] = Perm.rfl
  woken-perm readable (x ∷ xs) = elim (Bool-cases (readable x)) [
    | inl ready ↦ rw (ready, woken, still_waiting) (Perm.cons x (woken-perm readable xs))
    | inr blocked ↦
        rw (blocked, woken, still_waiting)
          (Perm.trans (perm_middle (woken readable xs) (still_waiting readable xs))
            (Perm.cons x (woken-perm readable xs)))
  ]

  wake-perm : (readable : A → Bool) (q : Queues A) → Perm (threads (wake readable q)) (threads q)
  unfolding wake
  wake-perm readable q = rw append_assoc (Perm.append_left q.ready (woken-perm readable q.waiting))

  last-perm : (x : A) (xs : List A) → Perm (last_of x xs ∷ but_last x xs) (x ∷ xs)
  unfolding last_of but_last
  last-perm x [] = Perm.rfl
  last-perm x (y ∷ ys) =
      Perm.trans (Perm.swap x (last_of y ys) (but_last y ys)) (Perm.cons x (last-perm y ys))

  length-but_last : (x : A) (xs : List A) → length (but_last x xs) ≡ length xs
  unfolding but_last
  length-but_last x [] = refl
  length-but_last x (y ∷ ys) = ap suc (length-but_last y ys)

  -- What `take_out` gives.
  pub record Removed (xs : List A) (i : ℕ) : Type ℓ where
    pub thread : A
    pub rest : List A
    pub taken : take_out xs i ≡ some (thread, rest)
    pub perm : Perm (thread ∷ rest) xs
    pub at : get_elem? xs i ≡ some thread
    pub size : length xs ≡ suc (length rest)

  take_out-Removed : (xs : List A) (i : ℕ) → i < length xs → Removed xs i
  unfolding take_out
  take_out-Removed [] i h = absurd (omega arith)
  take_out-Removed (x ∷ []) zero h = record {
    thread = x;
    rest = [];
    taken = refl;
    perm = Perm.rfl;
    at = refl;
    size = refl;
  }
  take_out-Removed (x ∷ y ∷ ys) zero h = record {
    thread = x;
    rest = last_of y ys ∷ but_last y ys;
    taken = refl;
    perm = Perm.cons x (last-perm y ys);
    at = refl;
    size = omega (arith, length-but_last y ys);
  }
  take_out-Removed (x ∷ ys) (suc i) h =
      let ih = take_out-Removed ys i (omega arith) in
      record {
        thread = ih.thread;
        rest = x ∷ ih.rest;
        taken = rw ih.taken;
        perm = Perm.trans (Perm.swap x ih.thread ih.rest) (Perm.cons x ih.perm);
        at = ih.at;
        size = omega (arith, ih.size);
      }

  get_elem?-append :
      (xs ys : List A) (i : ℕ) → i < length xs → get_elem? (xs ++ ys) i ≡ get_elem? xs i
  get_elem?-append [] ys i h = absurd (omega arith)
  get_elem?-append (x ∷ xs) ys zero h = refl
  get_elem?-append (x ∷ xs) ys (suc i) h = get_elem?-append xs ys i (omega arith)

  wake-within :
      (readable : A → Bool) (q : Queues A)
      → q.current < length q.ready
      → (wake readable q).current < length (wake readable q).ready
  unfolding wake
  wake-within readable q h = omega (arith, length-append q.ready (woken readable q.waiting))

  wake-current :
      (readable : A → Bool) (q : Queues A)
      → q.current < length q.ready
      → get_elem? (wake readable q).ready q.current ≡ get_elem? q.ready q.current
  unfolding wake
  wake-current readable q h = get_elem?-append q.ready (woken readable q.waiting) q.current h

  -- The threads `after` a switch: all of those of `q`, but for the current one where it has exited.
  abbrev pub Accounted : Switch → Queues A → List A → Type ℓ
  Accounted yields q after = Perm after (threads q)
  Accounted reads q after = Perm after (threads q)
  Accounted exits q after =
      (t : A) × (get_elem? q.ready q.current ≡ some t) × Perm (t ∷ after) (threads q)

  Accounted-perm :
      (type : Switch) (q : Queues A) {xs ys : List A}
      → Perm ys xs
      → Accounted type q xs
      → Accounted type q ys
  Accounted-perm yields q p a = Perm.trans p a
  Accounted-perm reads q p a = Perm.trans p a
  Accounted-perm exits q p (t, at, a) = (t, at, Perm.trans (Perm.cons t p) a)

  -- The same for the queues before the first round of polling.
  Accounted-wake :
      (type : Switch) (readable : A → Bool) (q : Queues A) (after : List A)
      → q.current < length q.ready
      → Accounted type (wake readable q) after
      → Accounted type q after
  unfolding wake
  Accounted-wake yields readable q after h a = Perm.trans a (wake-perm readable q)
  Accounted-wake reads readable q after h a = Perm.trans a (wake-perm readable q)
  Accounted-wake exits readable q after h (t, at, a) =
      (t, sym (wake-current readable q h) ∙ at, Perm.trans a (wake-perm readable q))

  perm_end : (xs ys : List A) (t : A) → Perm (xs ++ (ys ++ t ∷ [])) (t ∷ (xs ++ ys))
  perm_end xs ys t =
      rw (sym (append_assoc xs ys (t ∷ [])))
        (rw (append-nil (xs ++ ys)) at (perm_middle {a = t} (xs ++ ys) []))

  -- What `leave` gives.
  record Left (type : Switch) (q : Queues A) : Type ℓ where
    after : Queues A
    left : leave type q ≡ some after
    accounted : Accounted type q (threads after)
    within : after.current ≤ length after.ready

  leave-Left : (type : Switch) (q : Queues A) → q.current < length q.ready → Left type q
  unfolding leave
  leave-Left yields q h = record {
    after = record q { current = q.current + 1 };
    left = refl;
    accounted = Perm.rfl;
    within = omega arith;
  }
  leave-Left reads q h =
      let r = take_out-Removed q.ready q.current h in
      record {
        after = record q { ready = r.rest; waiting = q.waiting ++ r.thread ∷ [] };
        left = rw (r.taken, leave);
        accounted =
            Perm.trans (perm_end r.rest q.waiting r.thread) (Perm.append_right q.waiting r.perm);
        within = omega (arith, r.size);
      }
  leave-Left exits q h =
      let r = take_out-Removed q.ready q.current h in
      record {
        after = record q { ready = r.rest };
        left = rw (r.taken, leave);
        accounted = (r.thread, r.at, Perm.append_right q.waiting r.perm);
        within = omega (arith, r.size);
      }

  -- What a switch of the queues `q` may end in.
  abbrev pub Good : Switch → Queues A → Result A → Type ℓ
  Good type q finished = Accounted type q []
  Good type q (polling after) = (after.ready ≡ []) × Accounted type q (threads after)
  Good type q (resumes after) =
      (after.current < length after.ready) × Accounted type q (threads after)

  abbrev pub queues : List A → ℕ → List A → Queues A
  queues ready current waiting = record { ready = ready; current = current; waiting = waiting }

  poll_loop-Good :
      (type : Switch) (rounds : List (A → Bool)) (q : Queues A) (ready : List A) (current : ℕ)
      (waiting : List A)
      → current ≤ length ready
      → Accounted type q (ready ++ waiting)
      → Good type q (poll_loop rounds (queues ready current waiting))
  unfolding poll_loop
  poll_loop-Good type [] q [] c w h a = (refl, a)
  poll_loop-Good type [] q (x ∷ r) c w h a = (ground arith, a)
  poll_loop-Good type (readable ∷ rounds) q [] c w h a =
      poll_loop-Good type rounds q (woken readable w) c (still_waiting readable w) (omega arith)
        (Accounted-perm type q (woken-perm readable w) a)
  poll_loop-Good type (readable ∷ rounds) q (x ∷ r) c w h a = (ground arith, a)

  dispatch-Good :
      (type : Switch) (rounds : List (A → Bool)) (q : Queues A) (ready : List A) (current : ℕ)
      (waiting : List A)
      → current ≤ length ready
      → Accounted type q (ready ++ waiting)
      → Good type q (dispatch rounds (queues ready current waiting))
  unfolding dispatch
  dispatch-Good type rounds q [] c [] h a = a
  dispatch-Good type rounds q [] c (w ∷ ws) h a = poll_loop-Good type rounds q [] c (w ∷ ws) h a
  dispatch-Good type rounds q (x ∷ r) c w h a = (ground arith, a)

  -- Where some thread is current, the scheduler gives a result, and no thread is lost or doubled in
  -- it: after YIELD and READ the two queues hold the threads that they held, after EXIT all but the
  -- current one. Where it resumes a thread the index is one of the ready queue; it finishes only
  -- where no thread is left; and it polls on only with an empty ready queue.
  pub scheduler-Good :
      (type : Switch) (readable : A → Bool) (rounds : List (A → Bool)) (q : Queues A)
      → q.current < length q.ready
      → (r : Result A) × (scheduler type readable rounds q ≡ some r) × Good type q r
  unfolding scheduler
  scheduler-Good type readable rounds q h =
      let l = leave-Left type (wake readable q) (wake-within readable q h) in
      (
        dispatch rounds l.after,
        rw (l.left, scheduler),
        dispatch-Good type rounds q l.after.ready l.after.current l.after.waiting l.within
            (Accounted-wake type readable q (threads l.after) h l.accounted),
      )
