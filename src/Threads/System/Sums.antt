-- ===== src/Threads/System/Sums.antt =====
-- What the thread `max_subarray` prints, whatever the signals and the scheduler do.
use mathlib.Core.Logic.{∥∥₁_elim}
use mathlib.Core.Path.{subst}
use system_programming_hw.Common.{
  ℕ, ◌<◌, ◌≡◌, refl, sym, ap, List, [], ◌∷◌, ◌++◌, Option, none, some, length, length-append, arith,
}
use system_programming_hw.Common.Int.{ℤ, pos}
use system_programming_hw.Threads.Bodies.{Tcb, Turn, setup, advance, max_subarray}
use system_programming_hw.Threads.Bodies as Bodies
use system_programming_hw.Threads.Bodies.Fibonacci as Fibonacci
use system_programming_hw.Threads.Bodies.Subarray.{IsGreatest, all_sums}
use system_programming_hw.Threads.Bodies.Readings.{control, kept, readings, max_subarray-IsGreatest}
use system_programming_hw.Threads.System.{
  Kind, subarray_thread, Place, at_start, at_yield, at_read, go, stop, pauses, awaits, ends, System,
  Reach,
}
use system_programming_hw.Threads.System.Solo.{Solo, begins, goes_on, waits, stops}
use system_programming_hw.Threads.System.Inv.{printed_by}
use system_programming_hw.Threads.System.Steps.{Reach-Solo, read_lines}

stop-pauses :
    (turn : Turn) {v : ℤ} {u : Tcb}
    → stop turn ≡ pauses v u
    → (v ≡ Fibonacci.printed turn) × (u ≡ control turn)
stop-pauses (Bodies.exits v t) h = cc
stop-pauses (Bodies.yields v t) h = (cc, cc)
stop-pauses (Bodies.falls_off t) h = cc

stop-ends : (turn : Turn) {v : ℤ} → stop turn ≡ ends v → v ≡ Fibonacci.printed turn
stop-ends (Bodies.exits v t) h = cc
stop-ends (Bodies.yields v t) h = cc
stop-ends (Bodies.falls_off t) h = cc

stop-awaits : (turn : Turn) {u : Tcb} → stop turn ≡ awaits u → ⊥
stop-awaits (Bodies.exits v t) h = cc
stop-awaits (Bodies.yields v t) h = cc
stop-awaits (Bodies.falls_off t) h = cc

module _ (arg : ℤ) where
  -- A line for each that has been read, the last one first: the greatest of 0 and all sums of
  -- consecutive values of those read so far.
  pub data Shows : List (List ℕ) → List ℤ → Type 0 where
    nothing : Shows [] []
    one_more :
        {rs : List (List ℕ)} {out : List ℤ} {v : ℤ} (line : List ℕ)
        → Shows rs out
        → IsGreatest v (pos 0 ∷ all_sums (readings (line ∷ rs) (setup 2 arg)))
        → Shows (line ∷ rs) (out ++ v ∷ [])

  -- What `max_subarray` prints in its turns.
  pub sum_lines : List (List ℕ) → List ℤ
  sum_lines [] = []
  sum_lines (line ∷ rs) =
      sum_lines rs ++ Fibonacci.printed (max_subarray line (kept rs (setup 2 arg))) ∷ []

  length-sum_lines : (rs : List (List ℕ)) → length (sum_lines rs) ≡ length rs
  unfolding sum_lines
  length-sum_lines [] = refl
  length-sum_lines (line ∷ rs) = omega (
    arith,
    length-append (sum_lines rs)
        (Fibonacci.printed (max_subarray line (kept rs (setup 2 arg))) ∷ []),
    length-sum_lines rs,
  )

  sum_lines-Shows : (rs : List (List ℕ)) → length rs < 214749 → Shows rs (sum_lines rs)
  unfolding sum_lines
  sum_lines-Shows [] few = nothing
  sum_lines-Shows (line ∷ rs) few =
      one_more line (sum_lines-Shows rs (omega (arith, few)))
        (max_subarray-IsGreatest line rs 2 arg few)

  -- Where the thread stands after it has read `rs`.
  abbrev Stands : List (List ℕ) → Option (Place × Tcb) → Type 0
  Stands rs none = Unit
  Stands rs (some (at_start, t)) = (rs ≡ []) × (t ≡ setup 2 arg)
  Stands rs (some (at_read, t)) = t ≡ kept rs (setup 2 arg)
  Stands rs (some (at_yield, t)) = advance t ≡ kept rs (setup 2 arg)

module _ (args : Kind → ℤ) where
  Solo-lines :
      {rs : List (List ℕ)} {o : Option (Place × Tcb)} {out : List ℤ}
      → Solo args subarray_thread rs o out
      → Stands (args subarray_thread) rs o × (out ≡ sum_lines (args subarray_thread) rs)
  unfolding go sum_lines kept
  Solo-lines begins = ((refl, refl), refl)
  Solo-lines (goes_on {p = at_start} line solo g) = cc
  Solo-lines (goes_on {p = at_yield} line solo g) = cc
  Solo-lines (goes_on {p = at_read} {t} {u} {rs} {out} {v} line solo g) =
      let (stands, lines) = Solo-lines solo in
      let (is, same) = stop-pauses (max_subarray line t) g in
      (rw (same, stands) refl, rw (is, stands, lines) refl)
  Solo-lines (waits {p = at_start} {t} {u} line solo g) =
      let (stands, lines) = Solo-lines solo in
      let same : t ≡ u = cc in (rw (← same, stands.0) stands.1, lines)
  Solo-lines (waits {p = at_yield} {t} {u} line solo g) =
      let (stands, lines) = Solo-lines solo in
      let same : advance t ≡ u = cc in (rw (← same) stands, lines)
  Solo-lines (waits {p = at_read} {t} line solo g) = absurd (stop-awaits (max_subarray line t) g)
  Solo-lines (stops {p = at_start} line solo g) = cc
  Solo-lines (stops {p = at_yield} line solo g) = cc
  Solo-lines (stops {p = at_read} {t} {rs} {out} {v} line solo g) =
      let (stands, lines) = Solo-lines solo in
      (tt, rw (stop-ends (max_subarray line t) g, stands, lines) refl)

  -- In every state that the threads of HW3 reach, whatever signals come and whatever `poll` reports,
  -- thread 2, if it has printed fewer than 214,749 lines, has printed one for each line that has been
  -- read for it: the greatest of 0 and all sums of consecutive values of those read until then.
  pub Reach-Shows :
      {s : System} (r : Reach args s)
      → length (printed_by 2 s.output) < 214749
      → Shows (args subarray_thread) (read_lines args r 2) (printed_by 2 s.output)
  Reach-Shows {s} r few =
      let arg = args subarray_thread in
      let lines : printed_by 2 s.output ≡ sum_lines arg (read_lines args r 2) =
        ∥∥₁_elim (Reach-Solo args r subarray_thread) (hlevel) (λ (o, solo). (Solo-lines solo).1) in
      subst (Shows arg (read_lines args r 2)) (sym lines) (
        sum_lines-Shows arg (read_lines args r 2)
          (omega (arith, few, ap length lines, length-sum_lines arg (read_lines args r 2))))
