-- ===== src/Threads/System/Tests.antt =====
-- Runs of the threads of HW3, and the theorems at concrete inputs.
use system_programming_hw.Common.{
  ℕ, ◌<◌, ◌≡◌, ◌≢◌, refl, true, false, List, [], ◌∷◌, Option, some, length, arith,
}
use system_programming_hw.Common.Int.{ℤ, pos, negsuc, wrap32, ◌+ℤ◌}
use system_programming_hw.Text.{codes, atoi, c_string}
use system_programming_hw.Threads.Bodies.{Tcb, collatz, max_subarray}
use system_programming_hw.Threads.Scheduler.{scheduler}
use system_programming_hw.Threads.System.{
  Kind, fibonacci_thread, collatz_thread, subarray_thread, Place, printed, caught, sigalrm, System,
  Event, Next, runs, polls, over, broken, step, init_threads, parse_args, Reach, start, later,
}
use system_programming_hw.Threads.System.Solo.{Solo}
use system_programming_hw.Threads.System.Inv.{printed_by}
use system_programming_hw.Threads.System.Steps.{read_lines, Reach-Solo}
use system_programming_hw.Threads.System.Sums.{Shows, Reach-Shows}
use system_programming_hw.Threads.System.Lines.{fib_lines, Reach-fib_lines}
use system_programming_hw.Threads.System.Hail.{hail, hail_lines, Reach-hail_lines}

abbrev three : Kind → ℤ
three fibonacci_thread = pos 3
three collatz_thread = pos 6
three subarray_thread = pos 1

args_run : Option (List ℤ)
unfolding parse_args
args_run = elim (parse_args (codes "./main" ∷ codes "2" ∷ codes "3" ∷ codes "6" ∷ codes "1" ∷ [])) [
  | Option.none ↦ Option.none
  | some args ↦ some (args fibonacci_thread ∷ args collatz_thread ∷ args subarray_thread ∷ [])
]

parse_run : args_run ≡ some (pos 3 ∷ pos 6 ∷ pos 1 ∷ [])
unfolding args_run
parse_run = refl

abbrev quiet : Event
quiet = record {
  tstp = false;
  alrm = false;
  line = codes "0042\n";
  readable = λ _. true;
  rounds = [];
}

abbrev alarm : Event
alarm = record quiet { alrm = true }

abbrev running : System → Next → System
running s (runs t) = t
running s (polls t) = s
running s (over out) = s
running s broken = s

unfoldable first : System
unfolding step init_threads wrap32 ◌+ℤ◌ scheduler
first = running (init_threads three) (step quiet (init_threads three))

unfoldable second : System
unfolding first step
second = running first (step alarm first)

unfoldable third : System
unfolding second step
third = running second (step alarm second)

third_run :
    third.output
    ≡ printed 0 (pos 1)
      ∷ printed 0 (pos 1)
      ∷ caught sigalrm
      ∷ printed 1 (pos 3)
      ∷ caught sigalrm
      ∷ []
unfolding third
third_run = refl

third-Reach : Reach three third
unfolding third
third-Reach = later alarm (later alarm (later quiet start refl) refl) refl

Reach-Solo_example : ∥ (
    (o : Option (Place × Tcb)) × Solo three collatz_thread
      (read_lines three third-Reach 1)
      o
      (printed_by 1 third.output)) ∥₁
Reach-Solo_example = Reach-Solo three third-Reach collatz_thread

Reach-fib_lines_example : printed_by 0 third.output ≡ fib_lines (length (printed_by 0 third.output))
unfolding third
Reach-fib_lines_example = Reach-fib_lines three third-Reach (omega arith)

abbrev reader : Kind → ℤ
reader fibonacci_thread = negsuc 0
reader collatz_thread = negsuc 0
reader subarray_thread = pos 2

abbrev heard : Event
heard = record quiet { rounds = (λ _. true) ∷ [] }

unfoldable waiting : System
unfolding step init_threads scheduler
waiting = running (init_threads reader) (step heard (init_threads reader))

unfoldable summed : System
unfolding waiting step max_subarray atoi c_string wrap32 ◌+ℤ◌
summed = running waiting (step heard waiting)

summed_run : summed.output ≡ printed 2 (pos 42) ∷ []
unfolding summed
summed_run = refl

summed-Reach : Reach reader summed
unfolding summed
summed-Reach = later heard (later heard start refl) refl

Reach-Shows_example : Shows (pos 2) (read_lines reader summed-Reach 2) (printed_by 2 summed.output)
unfolding summed
Reach-Shows_example = Reach-Shows reader summed-Reach (omega arith)

Reach-hail_lines_example :
    (printed_by 1 third.output ≡ hail_lines (pos 6) (length (printed_by 1 third.output)))
    × ((m : ℕ) → m < length (printed_by 1 third.output) → hail (pos 6) m ≢ pos 1)
Reach-hail_lines_example = Reach-hail_lines three third-Reach

-- No thread is created, and there is none to switch to.
nobody_run : step quiet (init_threads (λ _. negsuc 0)) ≡ broken
unfolding step init_threads
nobody_run = refl

abbrev one_thread : Kind → ℤ
one_thread fibonacci_thread = negsuc 0
one_thread collatz_thread = pos 1
one_thread subarray_thread = negsuc 0

-- The function `collatz` returns, and there is no caller.
one_run : step quiet (init_threads one_thread) ≡ broken
unfolding step init_threads collatz
one_run = refl
