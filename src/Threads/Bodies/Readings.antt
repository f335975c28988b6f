-- ===== src/Threads/Bodies/Readings.antt =====
-- `max_subarray` on the lines that it reads.
use system_programming_hw.Common.{
  ℕ, suc, ◌*◌, ◌≤◌, ◌<◌, ◌≡◌, refl, List, [], ◌∷◌, ◌++◌, length, length-take, take, drop, arith,
  Bool-cases, inl, inr,
}
use system_programming_hw.Common.Int.{ℤ, pos}
use system_programming_hw.Text.{atoi, c_string}
use system_programming_hw.Text.Numbers.{IsSmall, atoi-IsSmall}
use system_programming_hw.Threads.Bodies.{
  Tcb, Turn, exits, yields, falls_off, setup, advance, stop_or_yield, subarray_step, max_subarray,
  eq_ℤ,
}
use system_programming_hw.Threads.Bodies.Fibonacci.{printed, printed-stop}
use system_programming_hw.Threads.Bodies.Subarray.{
  IsGreatest, all_sums, weight, Holds, step-Holds, after_values, after_values-Holds,
}

abbrev pub control : Turn → Tcb
control (exits v t) = t
control (yields v t) = t
control (falls_off t) = t

-- The control block after some lines, of which the last one read is the first in the list, and
-- the values of these lines. A short line leaves bytes of the line before in the buffer.
unfoldable pub kept : List (List ℕ) → Tcb → Tcb
unfolding max_subarray advance
kept [] t = t
kept (line ∷ lines) t = advance (control (max_subarray line (kept lines t)))

abbrev pub text_of : List ℕ → Tcb → List ℕ
text_of line t = take 4 (line ++ drop (length line) t.buf)

unfoldable pub readings : List (List ℕ) → Tcb → List ℤ
unfolding kept atoi c_string
readings [] t = []
readings (line ∷ lines) t = atoi (c_string (text_of line (kept lines t))) ∷ readings lines t

abbrev summed : List ℕ → Tcb → Tcb
summed line t = subarray_step (atoi (c_string (text_of line t))) (record t { buf = text_of line t })

max_subarray_lem : (line : List ℕ) (t : Tcb) → max_subarray line t ≡ stop_or_yield (summed line t)
unfolding max_subarray
max_subarray_lem line t = refl

control_lem : (t : Tcb) → control (stop_or_yield t) ≡ t
control_lem t = elim (Bool-cases (eq_ℤ t.i t.arg)) [ inl e ↦ rw e refl | inr e ↦ rw e refl ]

Holds-same : (vs : List ℤ) (t u : Tcb) → u.x ≡ t.x → u.y ≡ t.y → Holds vs t → Holds vs u
Holds-same vs t u e f h = record {
  head = rw e h.head;
  whole = rw f h.whole;
  small_x = rw e h.small_x;
}

record Sums (vs : List ℤ) (n : ℕ) (t : Tcb) : Type 0 where
  size : weight vs ≤ 10000 * n
  holds : Holds vs t

summed-Sums :
    (line : List ℕ) (vs : List ℤ) (n : ℕ) (t : Tcb)
    → n < 214748
    → Sums vs n t
    → Sums (atoi (c_string (text_of line t)) ∷ vs) (suc n) (summed line t)
summed-Sums line vs n t few s =
    let v = atoi (c_string (text_of line t)) in
    let small : IsSmall v =
      atoi-IsSmall (text_of line t)
        (omega (arith, length-take 4 (line ++ drop (length line) t.buf))) in
    let size : weight (v ∷ vs) ≤ 10000 * (suc n) = omega (arith, small, s.size) in
    record {
      size = size;
      holds =
          step-Holds v vs (record t { buf = text_of line t }) (omega (arith, size, few))
            (Holds-same vs t (record t { buf = text_of line t }) refl refl s.holds);
    }

kept-Sums :
    (lines : List (List ℕ)) (id : ℕ) (arg : ℤ)
    → length lines < 214749
    → Sums (readings lines (setup id arg)) (length lines) (kept lines (setup id arg))
unfolding readings kept after_values advance
kept-Sums [] id arg few = record {
  size = omega arith;
  holds = after_values-Holds [] id arg (omega arith);
}
kept-Sums (line ∷ lines) id arg few =
    let t = kept lines (setup id arg) in
    let s =
      summed-Sums line (readings lines (setup id arg)) (length lines) t (omega (arith, few))
        (kept-Sums lines id arg (omega (arith, few))) in
    record {
      size = s.size;
      holds =
          rw (max_subarray_lem line t, control_lem (summed line t))
            (Holds-same (readings (line ∷ lines) (setup id arg)) (summed line t)
              (advance (summed line t)) refl refl s.holds);
    }

-- Whatever is read in fewer than 214,749 turns, `max_subarray` prints in the last of them the
-- greatest of 0 and all sums of consecutive values of those that it has read.
pub max_subarray-IsGreatest :
    (line : List ℕ) (lines : List (List ℕ)) (id : ℕ) (arg : ℤ)
    → length (line ∷ lines) < 214749
    → IsGreatest
        (printed (max_subarray line (kept lines (setup id arg))))
        (pos 0 ∷ all_sums (readings (line ∷ lines) (setup id arg)))
unfolding readings
max_subarray-IsGreatest line lines id arg few =
    let t = kept lines (setup id arg) in
    let s =
      summed-Sums line (readings lines (setup id arg)) (length lines) t (omega (arith, few))
        (kept-Sums lines id arg (omega (arith, few))) in
    rw (max_subarray_lem line t, printed-stop (summed line t)) s.holds.whole
