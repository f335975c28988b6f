-- ===== src/Threads/System/Hail.antt =====
-- What the thread `collatz` prints, whatever the signals and the scheduler do.
use mathlib.Core.Logic.{∥∥₁_elim}
use mathlib.Core.Path.{ap₂}
use system_programming_hw.Common.{
  ℕ, zero, suc, ◌<◌, ◌≡◌, ◌≢◌, refl, ap, ◌∙◌, List, [], ◌∷◌, ◌++◌, Option, none, some, length,
  length-append, if◌then◌else◌, arith, Bool-cases, inl, inr, true, false, sym, ◌==◌,
}
use system_programming_hw.Common.Int.{ℤ, pos, eq_of_parts, half, wrap32, ◌+ℤ◌, ◌*ℤ◌}
use system_programming_hw.Threads.Bodies.{
  Tcb, setup, is_even, eq_ℤ, collatz, collatz_body, after_collatz,
}
use system_programming_hw.Threads.System.{
  Kind, collatz_thread, Place, at_start, at_yield, at_read, go, stop, pauses, awaits, ends, crashes,
  System, Reach,
}
use system_programming_hw.Threads.System.Solo.{Solo, begins, goes_on, waits, stops}
use system_programming_hw.Threads.System.Inv.{printed_by}
use system_programming_hw.Threads.System.Steps.{Reach-Solo}

-- The sequence of Collatz from `a` on, in an `int`.
abbrev pub next_hail : ℤ → ℤ
next_hail a = if is_even a then half a else wrap32 (wrap32 (a *ℤ pos 3) +ℤ pos 1)

unfoldable pub hail : ℤ → ℕ → ℤ
hail a zero = a
hail a (suc n) = next_hail (hail a n)

-- Its first `n` values after `a`.
unfoldable pub hail_lines : ℤ → ℕ → List ℤ
unfolding hail
hail_lines a zero = []
hail_lines a (suc n) = hail_lines a n ++ hail a (suc n) ∷ []

next_arg : (t : Tcb) → (collatz_body t).arg ≡ next_hail t.arg
unfolding collatz_body
next_arg t = ground arith

one-crashes : (t : Tcb) → t.arg ≡ pos 1 → stop (collatz t) ≡ crashes
unfolding collatz
one-crashes t e = ground (arith, e)

other-after : (t : Tcb) → eq_ℤ t.arg (pos 1) ≡ false → collatz t ≡ after_collatz (collatz_body t)
unfolding collatz
other-after t e = rw (e, collatz) refl

after_pauses :
    (t : Tcb) {v : ℤ} {u : Tcb} → stop (after_collatz t) ≡ pauses v u → (v ≡ t.arg) × (u ≡ t)
after_pauses t h = ground arith

after_ends : (t : Tcb) {v : ℤ} → stop (after_collatz t) ≡ ends v → v ≡ t.arg
after_ends t h = ground arith

pauses_lem :
    (t : Tcb) {v : ℤ} {u : Tcb}
    → stop (collatz t) ≡ pauses v u
    → (t.arg ≢ pos 1) × (v ≡ next_hail t.arg) × (u.arg ≡ next_hail t.arg)
pauses_lem t h = elim (Bool-cases (eq_ℤ t.arg (pos 1))) [
  | inl one ↦ cc (one-crashes t (eq_of_parts t.arg (pos 1) (ground arith)), h)
  | inr other ↦
      let (v_is, u_is) = after_pauses (collatz_body t) (rw (other-after t other) at h) in
      (λ e. cc (one-crashes t e, h), v_is ∙ next_arg t, ap (λ (w : Tcb). w.arg) u_is ∙ next_arg t)
]

ends_lem : (t : Tcb) {v : ℤ} → stop (collatz t) ≡ ends v → (t.arg ≢ pos 1) × (v ≡ next_hail t.arg)
ends_lem t h = elim (Bool-cases (eq_ℤ t.arg (pos 1))) [
  | inl one ↦ cc (one-crashes t (eq_of_parts t.arg (pos 1) (ground arith)), h)
  | inr other ↦ (
    (λ e. cc (one-crashes t e, h)),
    after_ends (collatz_body t) (rw (other-after t other) at h) ∙ next_arg t,
  )
]

awaits_lem : (t : Tcb) {u : Tcb} → stop (collatz t) ≡ awaits u → ⊥
unfolding collatz
awaits_lem t h = ground arith

-- Where the thread stands after `n` lines.
abbrev Stands : ℤ → Option (Place × Tcb) → ℕ → Type 0
Stands a none n = Unit
Stands a (some (at_start, t)) n = t.arg ≡ hail a n
Stands a (some (at_yield, t)) n = t.arg ≡ hail a n
Stands a (some (at_read, t)) n = ⊥

-- A turn from there is a turn of `collatz`.
from :
    (a : ℤ) (p : Place) (t : Tcb) (n : ℕ) (line : List ℕ)
    → Stands a (some (p, t)) n
    → (go collatz_thread p line t ≡ stop (collatz t)) × (t.arg ≡ hail a n)
unfolding go
from a at_start t n line h = (refl, h)
from a at_yield t n line h = (refl, h)
from a at_read t n line h = absurd h

module _ (args : Kind → ℤ) where
  record Printed (o : Option (Place × Tcb)) (out : List ℤ) : Type 0 where
    n : ℕ
    stands : Stands (args collatz_thread) o n
    size : length out ≡ n
    lines : out ≡ hail_lines (args collatz_thread) n
    not_one : (m : ℕ) → m < n → hail (args collatz_thread) m ≢ pos 1

  same_index : {m n : ℕ} → (m == n) ≡ true → n ≡ m
  same_index h = ground arith

  one_more :
      {o o' : Option (Place × Tcb)} {out : List ℤ} {v : ℤ} (x : ℤ) (before : Printed o out)
      → x ≡ hail (args collatz_thread) before.n
      → x ≢ pos 1
      → v ≡ next_hail x
      → Stands (args collatz_thread) o' (suc before.n)
      → Printed o' (out ++ v ∷ [])
  unfolding hail_lines
  one_more {out} {v} x before at ne is stands = record {
    n = suc before.n;
    stands = stands;
    size = omega (arith, length-append out (v ∷ []), before.size);
    lines = ap₂ (λ xs w. xs ++ w ∷ []) before.lines (is ∙ ap next_hail at);
    not_one = λ m below. elim (Bool-cases (m == before.n)) [
      | inl last ↦ λ e. ne (at ∙ ap (hail (args collatz_thread)) (same_index last) ∙ e)
      | inr earlier ↦ before.not_one m (ground arith)
    ];
  }

  Solo-Printed :
      {rs : List (List ℕ)} {o : Option (Place × Tcb)} {out : List ℤ}
      → Solo args collatz_thread rs o out
      → Printed o out
  unfolding hail_lines setup
  Solo-Printed begins = record {
    n = 0;
    stands = refl;
    size = refl;
    lines = refl;
    not_one = λ m below. absurd (omega (arith, below));
  }
  Solo-Printed (goes_on {p} {t} {u} line solo g) =
      let before = Solo-Printed solo in
      let (same, at) = from (args collatz_thread) p t before.n line before.stands in
      let (ne, is, next) = pauses_lem t (sym same ∙ g) in
      one_more t.arg before at ne is (next ∙ ap next_hail at)
  Solo-Printed (waits {p} {t} line solo g) =
      let before = Solo-Printed solo in
      let (same, at) = from (args collatz_thread) p t before.n line before.stands in
      absurd (awaits_lem t (sym same ∙ g))
  Solo-Printed (stops {p} {t} line solo g) =
      let before = Solo-Printed solo in
      let (same, at) = from (args collatz_thread) p t before.n line before.stands in
      let (ne, is) = ends_lem t (sym same ∙ g) in one_more t.arg before at ne is tt

  -- In every state that the threads of HW3 reach, whatever signals come and whatever `poll` reports,
  -- the lines of thread 1 are the sequence of Collatz after its argument, in 32 bits and in order,
  -- and neither the argument nor a line before the last one is 1: nothing is printed after a 1, and
  -- nothing at all where the argument is 1.
  pub Reach-hail_lines :
      {s : System}
      → Reach args s
      → (printed_by 1 s.output ≡ hail_lines (args collatz_thread) (length (printed_by 1 s.output)))
        × ((m : ℕ) → m < length (printed_by 1 s.output) → hail (args collatz_thread) m ≢ pos 1)
  Reach-hail_lines {s} r =
      ∥∥₁_elim (Reach-Solo args r collatz_thread) (hlevel)
        (λ (o, solo). let p = Solo-Printed solo in rw p.size (p.lines, p.not_one))
