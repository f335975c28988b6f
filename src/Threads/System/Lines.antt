-- ===== src/Threads/System/Lines.antt =====
-- What the thread `fibonacci` prints, whatever the signals and the scheduler do.
use mathlib.Core.Logic.{∥∥₁_elim}
use mathlib.Core.Path.{ap₂}
use system_programming_hw.Common.{
  ℕ, zero, suc, ◌<◌, ◌≡◌, refl, sym, ◌∙◌, List, [], ◌∷◌, ◌++◌, Option, none, some, length,
  length-append, arith,
}
use system_programming_hw.Common.Int.{ℤ, pos, wrap32}
use system_programming_hw.Threads.Bodies.{Tcb, setup, fibonacci, fibonacci_body, stop_or_yield}
use system_programming_hw.Threads.Bodies.Fibonacci.{fib, stage, printed-stop, fibonacci-prints}
use system_programming_hw.Threads.System.{
  Kind, fibonacci_thread, Place, at_start, at_yield, at_read, go, stop, pauses, awaits, ends,
  System, Reach,
}
use system_programming_hw.Threads.System.Solo.{Solo, begins, goes_on, waits, stops}
use system_programming_hw.Threads.System.Inv.{printed_by}
use system_programming_hw.Threads.System.Steps.{Reach-Solo}

-- The first `n` Fibonacci numbers, as far as an `int` holds them.
unfoldable pub fib_lines : ℕ → List ℤ
fib_lines zero = []
fib_lines (suc n) = fib_lines n ++ wrap32 (pos (fib (suc n))) ∷ []

pauses_lem : (t : Tcb) {v : ℤ} {u : Tcb} → stop (stop_or_yield t) ≡ pauses v u → (v ≡ t.y) × (u ≡ t)
pauses_lem t h = ground arith

ends_lem : (t : Tcb) {v : ℤ} → stop (stop_or_yield t) ≡ ends v → v ≡ t.y
ends_lem t h = ground arith

awaits_lem : (t : Tcb) {u : Tcb} → stop (stop_or_yield t) ≡ awaits u → ⊥
awaits_lem t h = ground arith

module _ (arg : ℤ) where
  -- Where the thread stands after `n` lines.
  abbrev Stands : Option (Place × Tcb) → ℕ → Type 0
  Stands none n = Unit
  Stands (some (at_start, t)) n = (n ≡ 0) × (t ≡ setup 0 arg)
  Stands (some (at_yield, t)) n = (m : ℕ) × (n ≡ suc m) × (t ≡ fibonacci_body (stage m 0 arg))
  Stands (some (at_read, t)) n = ⊥

  -- The control block with which the next turn begins.
  next_stage :
      (p : Place) (t : Tcb) (n : ℕ) (line : List ℕ)
      → Stands (some (p, t)) n
      → go fibonacci_thread p line t ≡ stop (stop_or_yield (fibonacci_body (stage n 0 arg)))
  unfolding go stage
  next_stage at_start t n line (e, f) = rw (e, f)
  next_stage at_yield t n line (m, e, f) = rw (e, f)
  next_stage at_read t n line h = absurd h

  value : (n : ℕ) → n < 2147483640 → (fibonacci_body (stage n 0 arg)).y ≡ wrap32 (pos (fib (suc n)))
  unfolding fibonacci
  value n h = sym (printed-stop (fibonacci_body (stage n 0 arg))) ∙ (fibonacci-prints n 0 arg h).0

next_line :
    {out : List ℤ} (n : ℕ) {v : ℤ}
    → out ≡ fib_lines n
    → v ≡ wrap32 (pos (fib (suc n)))
    → out ++ v ∷ [] ≡ fib_lines (suc n)
unfolding fib_lines
next_line n e f = ap₂ (λ xs w. xs ++ w ∷ []) e f

module _ (args : Kind → ℤ) where
  record Printed (o : Option (Place × Tcb)) (out : List ℤ) : Type 0 where
    n : ℕ
    stands : Stands (args fibonacci_thread) o n
    size : length out ≡ n
    lines : out ≡ fib_lines n

  Solo-Printed :
      {rs : List (List ℕ)} {o : Option (Place × Tcb)} {out : List ℤ}
      → Solo args fibonacci_thread rs o out
      → length out < 2147483640
      → Printed o out
  unfolding fib_lines
  Solo-Printed begins h = record { n = 0; stands = (refl, refl); size = refl; lines = refl }
  Solo-Printed (goes_on {p} {t} {u} {out} {v} line solo g) h =
      let before = Solo-Printed solo (omega (arith, length-append out (v ∷ []))) in
      let turn = sym (next_stage (args fibonacci_thread) p t before.n line before.stands) ∙ g in
      let (is, same) =
        pauses_lem (fibonacci_body (stage before.n 0 (args fibonacci_thread))) turn in
      record {
        n = suc before.n;
        stands = (before.n, refl, same);
        size = omega (arith, length-append out (v ∷ []), before.size);
        lines = next_line before.n before.lines (
            is
            ∙ value (args fibonacci_thread) before.n
                (omega (arith, before.size, length-append out (v ∷ []))));
      }
  Solo-Printed (waits {p} {t} {u} line solo g) h =
      let before = Solo-Printed solo h in
      let turn = sym (next_stage (args fibonacci_thread) p t before.n line before.stands) ∙ g in
      absurd (awaits_lem (fibonacci_body (stage before.n 0 (args fibonacci_thread))) turn)
  Solo-Printed (stops {p} {t} {out} {v} line solo g) h =
      let before = Solo-Printed solo (omega (arith, length-append out (v ∷ []))) in
      let turn = sym (next_stage (args fibonacci_thread) p t before.n line before.stands) ∙ g in
      let is = ends_lem (fibonacci_body (stage before.n 0 (args fibonacci_thread))) turn in
      record {
        n = suc before.n;
        stands = tt;
        size = omega (arith, length-append out (v ∷ []), before.size);
        lines = next_line before.n before.lines (
            is
            ∙ value (args fibonacci_thread) before.n
                (omega (arith, before.size, length-append out (v ∷ []))));
      }

  -- In every state that the threads of HW3 reach, whatever signals come and whatever `poll` reports,
  -- the lines of thread 0, if there are fewer than 2^31 - 8 of them, are the first Fibonacci numbers,
  -- wrapped to 32 bits and in order.
  pub Reach-fib_lines :
      {s : System}
      → Reach args s
      → length (printed_by 0 s.output) < 2147483640
      → printed_by 0 s.output ≡ fib_lines (length (printed_by 0 s.output))
  Reach-fib_lines {s} r h =
      ∥∥₁_elim (Reach-Solo args r fibonacci_thread) (hlevel)
        (λ (o, solo). let p = Solo-Printed solo h in rw p.size p.lines)
