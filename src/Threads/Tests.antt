-- ===== src/Threads/Tests.antt =====
-- Runs of the scheduler and of the thread functions, and the theorems at concrete inputs.
use system_programming_hw.Common.{ℕ, ◌≡◌, refl, Bool, true, false, List, [], ◌∷◌, some, ◌<◌, arith}
use system_programming_hw.Common.Int.{ℤ, pos, negsuc, wrap32}
use system_programming_hw.Threads.Scheduler.{
  Queues, reads, yields, exits, Result, resumes, finished, dispatch, scheduler,
}
use system_programming_hw.Threads.Scheduler.Laws.{queues, Good, scheduler-Good}
use system_programming_hw.Threads.Scheduler.Progress.{is_resumed, dispatch-resumes}
use system_programming_hw.Threads.Bodies.{setup, max_subarray, subarray_step}
use system_programming_hw.Text.{codes, atoi, c_string}
use system_programming_hw.Threads.Bodies.Readings.{kept, max_subarray-IsGreatest}
use system_programming_hw.Threads.Bodies.Readings
use system_programming_hw.Threads.Bodies.Subarray.{after_values}

abbrev two_ready : Queues ℕ
two_ready = queues (1 ∷ 2 ∷ []) 0 (3 ∷ [])

abbrev none_readable : ℕ → Bool
none_readable k = false

abbrev all_readable : ℕ → Bool
all_readable k = true

abbrev after_async : Result ℕ
after_async = resumes (queues (2 ∷ []) 0 (3 ∷ 1 ∷ []))

read_run : scheduler reads none_readable [] two_ready ≡ some after_async
unfolding scheduler
read_run = refl

yield_run :
    scheduler yields all_readable [] two_ready ≡ some (resumes (queues (1 ∷ 2 ∷ 3 ∷ []) 1 []))
unfolding scheduler
yield_run = refl

last_exit_run : scheduler exits none_readable [] (queues (1 ∷ []) 0 []) ≡ some finished
unfolding scheduler
last_exit_run = refl

scheduler-Good_example :
    (r : Result ℕ) × (scheduler reads none_readable [] two_ready ≡ some r) × Good reads two_ready r
scheduler-Good_example = scheduler-Good reads none_readable [] two_ready (omega arith)

dispatch-resumes_example :
    is_resumed (dispatch (none_readable ∷ all_readable ∷ []) (queues [] 0 (7 ∷ 8 ∷ []))) ≡ true
dispatch-resumes_example =
    dispatch-resumes (none_readable ∷ []) all_readable [] (queues [] 0 (7 ∷ 8 ∷ [])) refl

abbrev readings : List ℤ
readings = pos 4 ∷ negsuc 1 ∷ pos 3 ∷ negsuc 8 ∷ pos 1 ∷ []

subarray_run : (after_values readings (setup 1 (pos 5))).y ≡ pos 5
unfolding after_values setup subarray_step wrap32 system_programming_hw.Common.Int.◌+ℤ◌
subarray_run = refl

-- The lines "4", "-2", "3" and "-9", with the last one in front.
abbrev before : List (List ℕ)
before = codes "3   \n" ∷ codes "-2  \n" ∷ codes "4   \n" ∷ []

lines_run :
    Readings.readings (codes "-9  \n" ∷ before) (setup 2 (pos 9))
    ≡ negsuc 8 ∷ pos 3 ∷ negsuc 1 ∷ pos 4 ∷ []
unfolding Readings.readings atoi c_string setup max_subarray
lines_run = refl
