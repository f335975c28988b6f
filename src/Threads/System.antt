-- ===== src/Threads/System.antt =====
-- HW3 as a whole: the three threads of HW3/main.c, what each does from one switch to the next, and
-- the handling of the two signals.
pub mod Solo
pub mod Inv
pub mod Lists
pub mod Start
pub mod Steps
pub mod Lines
pub mod Sums
pub mod Hail
mod Tests
use system_programming_hw.Common.{
  ◌≡◌, ℕ, zero, suc, Bool, true, false, List, [], ◌∷◌, ◌++◌, Option, none, some, length, get_elem?,
  set, if◌then◌else◌,
}
use system_programming_hw.Common.Int.{ℤ, pos, ltb_ℤ}
use system_programming_hw.Text.{atoi}
use system_programming_hw.Threads.Bodies.{
  Tcb, Turn, setup, advance, fibonacci, collatz, max_subarray,
}
use system_programming_hw.Threads.Bodies
use system_programming_hw.Threads.Scheduler.{
  Switch, yields, reads, exits, Queues, Result, finished, polling, resumes, scheduler,
}

-- The function that a thread runs.
pub data Kind : Type 0 where
  fibonacci_thread : Kind
  collatz_thread : Kind
  subarray_thread : Kind

-- The id that `init_threads` gives it.
abbrev pub number : Kind → ℕ
number fibonacci_thread = 0
number collatz_thread = 1
number subarray_thread = 2

-- Where `environment` goes back to: the `setjmp` of `thread_setup`, of `thread_yield` or of
-- `async_read`.
pub data Place : Type 0 where
  at_start : Place
  at_yield : Place
  at_read : Place

pub record Thread : Type 0 where
  pub kind : Kind
  pub place : Place
  pub tcb : Tcb

-- Where a thread's run stops: `thread_exit` or `thread_yield` after a line is printed, the `longjmp`
-- of `async_read`, or a place that C leaves undefined.
pub data Stop : Type 0 where
  ends : ℤ → Stop
  pauses : ℤ → Tcb → Stop
  awaits : Tcb → Stop
  crashes : Stop

abbrev pub stop : Turn → Stop
stop (Bodies.exits v t) = ends v
stop (Bodies.yields v t) = pauses v t
stop (Bodies.falls_off t) = crashes

-- A thread from its `environment` to its next stop; `line` is what `read` would give.
unfoldable pub go : Kind → Place → List ℕ → Tcb → Stop
unfolding fibonacci collatz max_subarray advance
go fibonacci_thread at_start line t = stop (fibonacci t)
go fibonacci_thread at_yield line t = stop (fibonacci (advance t))
go fibonacci_thread at_read line t = crashes
go collatz_thread at_start line t = stop (collatz t)
go collatz_thread at_yield line t = stop (collatz t)
go collatz_thread at_read line t = crashes
go subarray_thread at_start line t = awaits t
go subarray_thread at_yield line t = awaits (advance t)
go subarray_thread at_read line t = stop (max_subarray line t)

pub data Signal : Type 0 where
  sigtstp : Signal
  sigalrm : Signal

-- What is printed: a line of a thread, or "caught SIGTSTP", "caught SIGALRM".
pub data Line : Type 0 where
  printed : ℕ → ℤ → Line
  caught : Signal → Line

-- `thread_yield`: the signal that is let through, if one of the two is pending.
abbrev pub thread_yield : (tstp alrm : Bool) → Option Signal
thread_yield true alrm = some sigtstp
thread_yield false true = some sigalrm
thread_yield false false = none

pub record System : Type 0 where
  pub queues : Queues Thread
  pub output : List Line

-- What the system does in the meantime: signals that are pending, the line for a `read`, and what
-- `poll` reports in the first and in later rounds.
pub record Event : Type 0 where
  pub tstp : Bool
  pub alrm : Bool
  pub line : List ℕ
  pub readable : Thread → Bool
  pub rounds : List (Thread → Bool)

-- After a switch: a thread runs, the scheduler still polls, all threads are done, or the program has
-- left what C defines.
pub data Next : Type 0 where
  runs : System → Next
  polls : System → Next
  over : List Line → Next
  broken : Next

abbrev pub say : Line → System → System
say l s = record s { output = s.output ++ l ∷ [] }

-- `RUNNING` with a new state.
abbrev pub keep : Thread → System → System
keep th s = record s { queues = record s.queues { ready = set s.queues.ready s.queues.current th } }

-- What the scheduler's result means for the system; it is entered only with a running thread.
abbrev pub resumed : System → Option (Result Thread) → Next
resumed s none = broken
resumed s (some finished) = over s.output
resumed s (some (polling q)) = polls (record s { queues = q })
resumed s (some (resumes q)) = runs (record s { queues = q })

-- `longjmp(sched_buf, type)`.
unfoldable pub reschedule : Switch → Event → System → Next
reschedule type e s = resumed s (scheduler type e.readable e.rounds s.queues)

-- What follows a stop of the running thread. A signal that is let through is reported by
-- `sighandler`, which goes to the scheduler as YIELD; without one the thread goes on.
unfoldable pub after_stop : Event → System → Thread → Stop → Next
unfolding reschedule
after_stop e s th (ends v) = reschedule exits e (say (printed (number th.kind) v) s)
after_stop e s th (pauses v t) =
    let s' = keep (record th { place = at_yield; tcb = t }) (say (printed (number th.kind) v) s) in
    elim (thread_yield e.tstp e.alrm) [
      | none ↦ runs s'
      | some signal ↦ reschedule yields e (say (caught signal) s')
    ]
after_stop e s th (awaits t) = reschedule reads e (keep (record th { place = at_read; tcb = t }) s)
after_stop e s th crashes = broken

-- The running thread, up to the next switch or the next turn of its loop.
unfoldable pub step : Event → System → Next
unfolding go after_stop
step e s = elim (get_elem? s.queues.ready s.queues.current) [
  | none ↦ broken
  | some th ↦ after_stop e s th (go th.kind th.place e.line th.tcb)
]

-- `init_threads`: a thread for each argument that is not negative.
abbrev pub create : (Kind → ℤ) → Kind → List Thread
create args k =
    if ltb_ℤ (args k) (pos 0)
    then []
    else record { kind = k; place = at_start; tcb = setup (number k) (args k) } ∷ []

unfoldable pub init_threads : (Kind → ℤ) → System
unfolding setup
init_threads args = record {
  queues = record {
    ready =
        create args fibonacci_thread ++ (create args collatz_thread ++ create args subarray_thread);
    current = 0;
    waiting = [];
  };
  output = [];
}

-- `main`, up to `start_threading`: the arguments after the name and the time slice; `none` is the
-- message on the usage.
unfoldable pub parse_args : List (List ℕ) → Option (Kind → ℤ)
unfolding atoi
parse_args (name ∷ timeslice ∷ fib_arg ∷ col_arg ∷ sub_arg ∷ []) = some (λ k. elim k [
  | fibonacci_thread ↦ atoi fib_arg
  | collatz_thread ↦ atoi col_arg
  | subarray_thread ↦ atoi sub_arg
])
parse_args _ = none

-- The states in which a thread runs, from the arguments on.
pub data Reach (args : Kind → ℤ) : System → Type 0 where
  start : Reach args (init_threads args)
  later : {s t : System} (e : Event) → Reach args s → step e s ≡ runs t → Reach args t
