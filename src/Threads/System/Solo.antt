-- ===== src/Threads/System/Solo.antt =====
-- A thread of HW3 by itself, on the lines that are read for it.
use system_programming_hw.Common.{ℕ, ◌≡◌, List, [], ◌∷◌, ◌++◌, Option, none, some}
use system_programming_hw.Common.Int.{ℤ}
use system_programming_hw.Threads.Bodies.{Tcb, setup}
use system_programming_hw.Threads.System.{
  Kind, number, Place, at_start, at_yield, at_read, go, pauses, awaits, ends,
}

-- The lines that a thread has read, the last one first, after a turn from place `p` on.
abbrev pub reads_at : Place → List ℕ → List (List ℕ) → List (List ℕ)
reads_at at_start line rs = rs
reads_at at_yield line rs = rs
reads_at at_read line rs = line ∷ rs

-- The place and the control block of the thread of kind `k`, or `none` after its end, with what it
-- has read and what it has printed, if it runs with no other thread and no signal.
pub data Solo (args : Kind → ℤ) (k : Kind)
    : List (List ℕ) → Option (Place × Tcb) → List ℤ → Type 0 where
  begins : Solo args k [] (some (at_start, setup (number k) (args k))) []
  goes_on :
      {p : Place} {t u : Tcb} {rs : List (List ℕ)} {out : List ℤ} {v : ℤ} (line : List ℕ)
      → Solo args k rs (some (p, t)) out
      → go k p line t ≡ pauses v u
      → Solo args k (reads_at p line rs) (some (at_yield, u)) (out ++ v ∷ [])
  waits :
      {p : Place} {t u : Tcb} {rs : List (List ℕ)} {out : List ℤ} (line : List ℕ)
      → Solo args k rs (some (p, t)) out
      → go k p line t ≡ awaits u
      → Solo args k (reads_at p line rs) (some (at_read, u)) out
  stops :
      {p : Place} {t : Tcb} {rs : List (List ℕ)} {out : List ℤ} {v : ℤ} (line : List ℕ)
      → Solo args k rs (some (p, t)) out
      → go k p line t ≡ ends v
      → Solo args k (reads_at p line rs) none (out ++ v ∷ [])
