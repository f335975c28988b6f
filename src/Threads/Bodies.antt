-- ===== src/Threads/Bodies.antt =====
-- HW3/threads.c: what each thread function does between two switches.
pub mod Fibonacci
pub mod Subarray
pub mod Readings
use system_programming_hw.Common.{
  ℕ, zero, suc, ◌+◌, ◌/◌, ◌%◌, Bool, true, false, List, [], ◌∷◌, ◌==◌, ◌&&◌, if◌then◌else◌, take,
  drop, length, ◌++◌,
}
use system_programming_hw.Common.Int.{
  ℤ, pos, negsuc, pos_part, neg_part, half, ◌+ℤ◌, ◌*ℤ◌, wrap32, ltb_ℤ, sub_ℕ,
}
use system_programming_hw.Text.{atoi, c_string}

-- `struct tcb`, without the file descriptor and the jump buffer.
pub record Tcb : Type 0 where
  pub id : ℕ
  pub arg : ℤ
  pub buf : List ℕ
  pub i : ℤ
  pub x : ℤ
  pub y : ℤ

abbrev pub eq_ℤ : ℤ → ℤ → Bool
eq_ℤ a b = pos_part a == pos_part b && neg_part a == neg_part b

-- What a part of a thread's run ends in: `thread_exit`, the next `thread_yield`, or, for `collatz`,
-- the return of the function, which leaves no frame to go back to. The number is what is printed
-- after the id.
pub data Turn : Type 0 where
  exits : ℤ → Tcb → Turn
  yields : ℤ → Tcb → Turn
  falls_off : Tcb → Turn

-- `RUNNING->i == RUNNING->arg` after the print.
abbrev pub stop_or_yield : Tcb → Turn
stop_or_yield t = if eq_ℤ t.i t.arg then exits t.y t else yields t.y t

-- `thread_setup`: `i` is set by the first `for`.
unfoldable pub setup : ℕ → ℤ → Tcb
setup id arg = record { id = id; arg = arg; buf = []; i = pos 1; x = pos 0; y = pos 0 }

-- The `RUNNING->i++` of the `for` of `fibonacci` and `max_subarray`.
unfoldable pub advance : Tcb → Tcb
advance t = record t { i = wrap32 (t.i +ℤ pos 1) }

-- The body of the `for` of `fibonacci`.
unfoldable pub fibonacci_body : Tcb → Tcb
fibonacci_body t =
    if ltb_ℤ (pos 2) t.i
    then record t { x = t.y; y = wrap32 (t.x +ℤ t.y) }
    else record t { x = pos 1; y = pos 1 }

unfoldable pub fibonacci : Tcb → Turn
unfolding fibonacci_body
fibonacci t = stop_or_yield (fibonacci_body t)

-- The test `% 2 == 0`.
abbrev pub is_even : ℤ → Bool
is_even a = (pos_part a + neg_part a) % 2 == 0

-- The body of the `while` of `collatz`, with its test in front.
unfoldable pub collatz_body : Tcb → Tcb
collatz_body t =
    if is_even t.arg
    then record t { arg = half t.arg }
    else record t { arg = wrap32 (wrap32 (t.arg *ℤ pos 3) +ℤ pos 1) }

abbrev pub after_collatz : Tcb → Turn
after_collatz t = if eq_ℤ t.arg (pos 1) then exits t.arg t else yields t.arg t

unfoldable pub collatz : Tcb → Turn
unfolding collatz_body
collatz t = if eq_ℤ t.arg (pos 1) then falls_off t else after_collatz (collatz_body t)

-- `max(a, b)`.
abbrev pub max : ℤ → ℤ → ℤ
max a b = if ltb_ℤ b a then a else b

-- The sums of `max_subarray`, for the value that has been read.
unfoldable pub subarray_step : ℤ → Tcb → Tcb
subarray_step val t = let x' = max val (wrap32 (t.x +ℤ val)) in record t { x = x'; y = max t.y x' }

-- The body of the `for` of `max_subarray` from the return of `async_read(5)` on; `line` is what
-- `read` has put at the front of the buffer. `buf[4]` is set to 0.
unfoldable pub max_subarray : List ℕ → Tcb → Turn
unfolding subarray_step
max_subarray line t =
    let text = take 4 (line ++ drop (length line) t.buf) in
    stop_or_yield (subarray_step (atoi (c_string text)) (record t { buf = text }))
