-- ===== src/Threads/Bodies/Fibonacci.antt =====
-- `fibonacci` prints the Fibonacci numbers, as far as an `int` holds them.
use mathlib.Core.Path.{ap₂}
use system_programming_hw.Common.{
  ℕ, zero, suc, ◌+◌, ◌<◌, ◌≡◌, refl, ap, ◌∙◌, Bool, true, false, arith,
}
use system_programming_hw.Common.Int.{ℤ, pos, ◌+ℤ◌, wrap32, ◌≤ℤ◌}
use system_programming_hw.Threads.Bodies.{
  Tcb, Turn, exits, yields, falls_off, setup, advance, fibonacci_body, fibonacci, stop_or_yield,
  eq_ℤ,
}

abbrev pub fib : ℕ → ℕ
fib zero = 0
fib (suc zero) = 1
fib (suc (suc n)) = fib (suc n) + fib n

-- A wrapped sum of wrapped numbers is the wrapped sum.
wrap32-add_wrap : (a b : ℕ) → wrap32 (wrap32 (pos a) +ℤ wrap32 (pos b)) ≡ wrap32 (pos (a + b))
unfolding wrap32 ◌+ℤ◌
wrap32-add_wrap a b = ground arith

-- The control block before the body of the `for` for the (n + 1)st time, if nothing stops the loop.
unfoldable pub stage : ℕ → ℕ → ℤ → Tcb
stage zero id arg = setup id arg
stage (suc n) id arg = advance (fibonacci_body (stage n id arg))

-- What the body leaves in the (n + 1)st round.
record Round (n : ℕ) (arg : ℤ) (t : Tcb) : Type 0 where
  index : t.i ≡ pos (suc n)
  same_arg : t.arg ≡ arg
  last : t.y ≡ wrap32 (pos (fib (suc n)))
  before_last : (m : ℕ) → n ≡ suc m → t.x ≡ wrap32 (pos (fib n))

body_first : (t : Tcb) → t.i ≤ℤ pos 2 → fibonacci_body t ≡ record t { x = pos 1; y = pos 1 }
unfolding fibonacci_body
body_first t h = ground arith

body_later :
    (t : Tcb) (n : ℕ)
    → t.i ≡ pos (suc (suc (suc n)))
    → fibonacci_body t ≡ record t { x = t.y; y = wrap32 (t.x +ℤ t.y) }
unfolding fibonacci_body
body_later t n e = ground arith

advance_index : (t : Tcb) (n : ℕ) → t.i ≡ pos n → n < 2147483647 → (advance t).i ≡ pos (suc n)
unfolding advance ◌+ℤ◌ wrap32
advance_index t n e h = ground arith

Round-first : (id : ℕ) (arg : ℤ) → Round 0 arg (fibonacci_body (setup id arg))
unfolding setup fibonacci_body wrap32
Round-first id arg = record {
  index = refl;
  same_arg = refl;
  last = refl;
  before_last = λ m e. absurd (omega arith);
}

Round-second : (arg : ℤ) (t : Tcb) → Round 0 arg t → Round 1 arg (fibonacci_body (advance t))
Round-second arg t r =
    let i : (advance t).i ≡ pos 2 = advance_index t 1 r.index (omega arith) in
    rw (body_first (advance t) (rw i (omega arith))) (record {
      index = i;
      same_arg = unfold advance in r.same_arg;
      last = unfold wrap32 in refl;
      before_last = λ m e. unfold wrap32 in refl;
    })

Round-later :
    (n : ℕ) (arg : ℤ) (t : Tcb)
    → n < 2147483640
    → Round (suc n) arg t
    → Round (suc (suc n)) arg (fibonacci_body (advance t))
Round-later n arg t h r =
    let i : (advance t).i ≡ pos (suc (suc (suc n))) =
      advance_index t (suc (suc n)) r.index (omega arith) in
    rw (body_later (advance t) n i) (record {
      index = i;
      same_arg = unfold advance in r.same_arg;
      last =
          unfold advance in
          (ap₂ (λ a b. wrap32 (a +ℤ b)) (r.before_last n refl) r.last
            ∙ wrap32-add_wrap (fib (suc n)) (fib (suc (suc n)))
            ∙ ap (λ k. wrap32 (pos k)) (omega arith));
      before_last = λ m e. unfold advance in r.last;
    })

stage-Round : (n id : ℕ) (arg : ℤ) → n < 2147483640 → Round n arg (fibonacci_body (stage n id arg))
unfolding stage
stage-Round zero id arg h = Round-first id arg
stage-Round (suc zero) id arg h = Round-second arg _ (Round-first id arg)
stage-Round (suc (suc n)) id arg h =
    Round-later n arg _ (omega arith) (stage-Round (suc n) id arg (omega arith))

abbrev pub printed : Turn → ℤ
printed (exits v t) = v
printed (yields v t) = v
printed (falls_off t) = pos 0

abbrev pub is_exit : Turn → Bool
is_exit (exits v t) = true
is_exit (yields v t) = false
is_exit (falls_off t) = false

pub printed-stop : (t : Tcb) → printed (stop_or_yield t) ≡ t.y
printed-stop t = ground arith

pub exit-stop : (t : Tcb) → is_exit (stop_or_yield t) ≡ eq_ℤ t.i t.arg
exit-stop t = ground arith

-- In its (n + 1)st round, for n below 2^31 - 8, `fibonacci` prints the (n + 1)st Fibonacci number,
-- wrapped to 32 bits, and it exits in this round exactly when its argument is n + 1.
pub fibonacci-prints :
    (n id : ℕ) (arg : ℤ)
    → n < 2147483640
    → (printed (fibonacci (stage n id arg)) ≡ wrap32 (pos (fib (suc n))))
      × (is_exit (fibonacci (stage n id arg)) ≡ eq_ℤ (pos (suc n)) arg)
unfolding fibonacci
fibonacci-prints n id arg h =
    let r = stage-Round n id arg h in
    let t = fibonacci_body (stage n id arg) in
    (printed-stop t ∙ r.last, exit-stop t ∙ ap₂ eq_ℤ r.index r.same_arg)
