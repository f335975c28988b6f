-- ===== src/Threads/Scheduler/Progress.antt =====
-- Polling ends once a waiting thread can read.
use system_programming_hw.Common.{
  ℕ, ◌≡◌, refl, ap, Bool, true, false, ◌||◌, List, [], ◌∷◌, ◌++◌, ◌⊎◌, inl, inr, Bool-cases,
}
use system_programming_hw.Threads.Scheduler.{
  Result, finished, polling, resumes, woken, still_waiting, poll_loop, dispatch, Queues,
}
use system_programming_hw.Threads.Scheduler.Laws.{queues}

module _ {ℓ} {A : Type ℓ} where
  abbrev pub any : (A → Bool) → List A → Bool
  any p [] = false
  any p (x ∷ xs) = p x || any p xs

  abbrev pub is_resumed : Result A → Bool
  is_resumed finished = false
  is_resumed (polling q) = false
  is_resumed (resumes q) = true

  -- A round of polling wakes a thread, or leaves the waiting queue as it was.
  woken-cases :
      (readable : A → Bool) (xs : List A)
      → ((x : A) × (rest : List A) × (woken readable xs ≡ x ∷ rest))
        ⊎ ((woken readable xs ≡ []) × (still_waiting readable xs ≡ xs) × (any readable xs ≡ false))
  unfolding woken still_waiting
  woken-cases readable [] = inr (refl, refl, refl)
  woken-cases readable (x ∷ xs) = elim (Bool-cases (readable x)) [
    | inl ready ↦ inl (x, woken readable xs, rw (ready, woken))
    | inr blocked ↦ elim (woken-cases readable xs) [
      | inl (y, rest, e) ↦ inl (y, rest, rw (blocked, woken) e)
      | inr (e, f, g) ↦
          inr (rw (blocked, woken) e, rw (blocked, still_waiting) (ap (◌∷◌ x) f), rw blocked g)
    ]
  ]

  poll_loop-ready :
      (rounds : List (A → Bool)) (x : A) (r : List A) (c : ℕ) (w : List A)
      → is_resumed (poll_loop rounds (queues (x ∷ r) c w)) ≡ true
  unfolding poll_loop
  poll_loop-ready [] x r c w = refl
  poll_loop-ready (readable ∷ rounds) x r c w = refl

  -- A round of polling with an empty ready queue.
  poll_loop-round :
      (readable : A → Bool) (rounds : List (A → Bool)) (c : ℕ) (w : List A)
      → poll_loop (readable ∷ rounds) (queues [] c w)
        ≡ poll_loop rounds (queues (woken readable w) c (still_waiting readable w))
  unfolding poll_loop
  poll_loop-round readable rounds c w = refl

  poll_loop-resumes :
      (before : List (A → Bool)) (readable : A → Bool) (after : List (A → Bool)) (ready : List A)
      (c : ℕ) (w : List A)
      → any readable w ≡ true
      → is_resumed (poll_loop (before ++ readable ∷ after) (queues ready c w)) ≡ true
  poll_loop-resumes before readable after (x ∷ r) c w h =
      poll_loop-ready (before ++ readable ∷ after) x r c w
  poll_loop-resumes [] readable after [] c w h = elim (woken-cases readable w) [
    | inl (x, rest, e) ↦
        rw (poll_loop-round readable after c w, e)
          (poll_loop-ready after x rest c (still_waiting readable w))
    | inr (e, f, g) ↦ cc
  ]
  poll_loop-resumes (b ∷ before) readable after [] c w h = elim (woken-cases b w) [
    | inl (x, rest, e) ↦
        rw (poll_loop-round b (before ++ readable ∷ after) c w, e)
          (poll_loop-ready (before ++ readable ∷ after) x rest c (still_waiting b w))
    | inr (e, f, g) ↦
        rw (poll_loop-round b (before ++ readable ∷ after) c w, e, f)
          (poll_loop-resumes before readable after [] c w h)
  ]

  dispatch_parts-resumes :
      (before : List (A → Bool)) (readable : A → Bool) (after : List (A → Bool)) (ready : List A)
      (c : ℕ) (w : List A)
      → any readable w ≡ true
      → is_resumed (dispatch (before ++ readable ∷ after) (queues ready c w)) ≡ true
  unfolding dispatch
  dispatch_parts-resumes before readable after [] c [] h = cc
  dispatch_parts-resumes before readable after [] c (x ∷ w) h =
      poll_loop-resumes before readable after [] c (x ∷ w) h
  dispatch_parts-resumes before readable after (y ∷ r) c w h = refl

  -- If in some round of polling a thread that waits now is reported as readable, the scheduler
  -- resumes a thread, whatever the rounds before it report.
  pub dispatch-resumes :
      (before : List (A → Bool)) (readable : A → Bool) (after : List (A → Bool)) (q : Queues A)
      → any readable q.waiting ≡ true
      → is_resumed (dispatch (before ++ readable ∷ after) q) ≡ true
  dispatch-resumes before readable after q h =
      dispatch_parts-resumes before readable after q.ready q.current q.waiting h
