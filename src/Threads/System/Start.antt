-- ===== src/Threads/System/Start.antt =====
-- The state of the threads of HW3 that `init_threads` leaves.
use mathlib.Core.List.{append_assoc, Mem, mem-cons, not-mem-nil, Nodup-cons, Nodup-nil}
use mathlib.Core.Logic.Or
use mathlib.Core.Logic.{∥∥₁_prop}
use mathlib.Core.HLevel.{⊥_prop}
use mathlib.Core.Path.{subst}
use system_programming_hw.Common.{
  ℕ, ◌≢◌, sym, List, [], ◌++◌, map, some, arith, inl, inr, Bool-cases,
}
use system_programming_hw.Common.Int.{ℤ, pos, ltb_ℤ}
use system_programming_hw.Threads.Bodies.{setup}
use system_programming_hw.Threads.Scheduler.Laws.{threads}
use system_programming_hw.Threads.System.{
  Kind, fibonacci_thread, collatz_thread, subarray_thread, number, at_start, Thread, init_threads,
  create,
}
use system_programming_hw.Threads.System.Solo.{begins}
use system_programming_hw.Threads.System.Inv.{Log, Fits, Inv}

-- Nothing is read yet.
abbrev pub no_reads : Log
no_reads n = []

module _ (args : Kind → ℤ) where
  -- One more thread, of a new kind, in front of those that `init_threads` creates.
  create-Inv :
      (k : Kind) (xs : List Thread)
      → ¬ Mem (number k) (map (λ (th : Thread). number th.kind) xs)
      → Inv args xs [] no_reads
      → Inv args (create args k ++ xs) [] no_reads
  create-Inv k xs new inv = elim (Bool-cases (ltb_ℤ (args k) (pos 0))) [
    | inl negative ↦ rw negative inv
    | inr created ↦ rw created (record {
      fits = λ th m.
          Or.elim ∥∥₁_prop (mem-cons.0 m) (λ e. subst (Fits args [] no_reads) (sym e) ∣ begins ∣₁)
            (inv.fits th);
      apart = Nodup-cons.1 (new, inv.apart);
      prints = inv.prints;
    })
  ]

  not-mem-create :
      (n : ℕ) (k : Kind) (xs : List Thread)
      → n ≢ number k
      → ¬ Mem n (map (λ (th : Thread). number th.kind) xs)
      → ¬ Mem n (map (λ (th : Thread). number th.kind) (create args k ++ xs))
  not-mem-create n k xs ne out = elim (Bool-cases (ltb_ℤ (args k) (pos 0))) [
    | inl negative ↦ rw negative out
    | inr created ↦ rw created (λ m. Or.elim ⊥_prop (mem-cons.0 m) ne out)
  ]

  nobody-Inv : Inv args [] [] no_reads
  nobody-Inv = record {
    fits = λ th m. absurd (not-mem-nil m);
    apart = Nodup-nil;
    prints = λ k. ∣ (some (at_start, setup (number k) (args k)), begins) ∣₁;
  }

  pub init_threads-Inv :
      Inv args (threads (init_threads args).queues) (init_threads args).output no_reads
  unfolding init_threads
  init_threads-Inv =
      let subarray = create-Inv subarray_thread [] not-mem-nil nobody-Inv in
      let collatz =
        create-Inv collatz_thread (create args subarray_thread ++ [])
          (not-mem-create 1 subarray_thread [] (λ e. omega (arith, e)) not-mem-nil) subarray in
      let fibonacci =
        create-Inv fibonacci_thread
          (create args collatz_thread ++ (create args subarray_thread ++ []))
          (not-mem-create 0 collatz_thread (create args subarray_thread ++ [])
            (λ e. omega (arith, e))
            (not-mem-create 0 subarray_thread [] (λ e. omega (arith, e)) not-mem-nil))
          collatz in
      rw
        (
          append_assoc (create args fibonacci_thread)
              (create args collatz_thread ++ create args subarray_thread) [],
          append_assoc (create args collatz_thread) (create args subarray_thread) [],
        )
        fibonacci
