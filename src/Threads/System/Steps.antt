-- ===== src/Threads/System/Steps.antt =====
-- Each step of the threads keeps what each of them prints by itself.
use mathlib.Core.List.{Perm}
use mathlib.Core.List.Perm
use system_programming_hw.Common.{
  ℕ, ◌<◌, ◌≡◌, ◌≢◌, refl, List, [], ◌∷◌, ◌++◌, Option, some, length, get_elem?, length-set, arith,
  Option-cases, inl, inr, none, ◌==◌, if◌then◌else◌,
}
use system_programming_hw.Common.Int.{ℤ}
use system_programming_hw.Threads.Bodies.{Tcb}
use system_programming_hw.Threads.Scheduler.{
  Queues, Switch, yields, reads, exits, Result, finished, polling, resumes, scheduler,
}
use system_programming_hw.Threads.Scheduler.Laws.{threads, Good, scheduler-Good}
use system_programming_hw.Threads.System.{
  Kind, number, Place, at_yield, at_read, Thread, Stop, go, pauses, awaits, ends, crashes, Line,
  printed, caught, System, Event, runs, reschedule, resumed, after_stop, thread_yield, keep, say,
  Signal, step, Reach, start, later,
}
use system_programming_hw.Threads.System.Solo.{Solo, reads_at, goes_on, waits, stops}
use system_programming_hw.Threads.System.Inv.{printed_by, Log, Inv, Inv-perm, Inv-head, Inv-tail}
use system_programming_hw.Threads.System.Start.{no_reads, init_threads-Inv}
use system_programming_hw.Threads.System.Lists.{
  Split-at, printed_by-own, printed_by-other, printed_by-caught,
}

-- What the threads have read after thread `c` has run, and after a step.
abbrev logged : Thread → List ℕ → Log → Log
logged c line log n = if number c.kind == n then reads_at c.place line (log n) else log n

abbrev log_step : Event → System → Log → Log
log_step e s log = elim (get_elem? s.queues.ready s.queues.current) [
  | none ↦ log
  | some c ↦ logged c e.line log
]

logged_own :
    (c : Thread) (line : List ℕ) (log : Log)
    → logged c line log (number c.kind) ≡ reads_at c.place line (log (number c.kind))
logged_own c line log = ground arith

logged_other :
    (c : Thread) (line : List ℕ) (log : Log) (n : ℕ)
    → number c.kind ≢ n
    → logged c line log n ≡ log n
logged_other c line log n ne = ground arith

module _ (args : Kind → ℤ) where
  -- A signal that is reported belongs to no thread.
  Inv-caught :
      {xs : List Thread} {log : Log} (signal : Signal) (out : List Line)
      → Inv args xs out log
      → Inv args xs (out ++ caught signal ∷ []) log
  Inv-caught signal out inv = record {
    fits = λ th m. rw (printed_by-caught (number th.kind) signal out) (inv.fits th m);
    apart = inv.apart;
    prints = λ k. rw (printed_by-caught (number k) signal out) (inv.prints k);
  }

  -- The queues of the system, with the running thread in them.
  pub record IsSound (s : System) (log : Log) : Type 0 where
    pub inv : Inv args (threads s.queues) s.output log
    pub running : s.queues.current < length s.queues.ready

  reschedule_lem :
      (type : Switch) (e : Event) (s : System) {t : System} {r : Result Thread}
      → scheduler type e.readable e.rounds s.queues ≡ some r
      → reschedule type e s ≡ runs t
      → (q : Queues Thread) × (r ≡ resumes q) × (record s { queues = q } ≡ t)
  unfolding reschedule
  reschedule_lem type e s {t} {r} eq h = by_result r (rw eq at h)
    where
      by_result :
          (r : Result Thread)
          → resumed s (some r) ≡ runs t
          → (q : Queues Thread) × (r ≡ resumes q) × (record s { queues = q } ≡ t)
      by_result finished h = cc
      by_result (polling q) h = cc
      by_result (resumes q) h = (q, refl, cc)

  reschedule-yields :
      (e : Event) {s t : System} {log : Log}
      → IsSound s log
      → reschedule yields e s ≡ runs t
      → IsSound t log
  reschedule-yields e {s} {t} sound h =
      let (r, eq, good) = scheduler-Good yields e.readable e.rounds s.queues sound.running in
      let (q, is, same) = reschedule_lem yields e s eq h in
      let good' : Good yields s.queues (resumes q) = rw is at good in
      rw (← same) (record { inv = Inv-perm args good'.1 sound.inv; running = good'.0 })

  reschedule-reads :
      (e : Event) {s t : System} {log : Log}
      → IsSound s log
      → reschedule reads e s ≡ runs t
      → IsSound t log
  reschedule-reads e {s} {t} sound h =
      let (r, eq, good) = scheduler-Good reads e.readable e.rounds s.queues sound.running in
      let (q, is, same) = reschedule_lem reads e s eq h in
      let good' : Good reads s.queues (resumes q) = rw is at good in
      rw (← same) (record { inv = Inv-perm args good'.1 sound.inv; running = good'.0 })

  -- The end of the running thread `c`.
  reschedule-exits :
      (e : Event) (c : Thread) (s : System) {t : System} {log : Log}
      → get_elem? s.queues.ready s.queues.current ≡ some c
      → s.queues.current < length s.queues.ready
      → ((rest : List Thread) → Perm (c ∷ rest) (threads s.queues) → Inv args rest s.output log)
      → reschedule exits e s ≡ runs t
      → IsSound t log
  reschedule-exits e c s {t} at within left h =
      let (r, eq, good) = scheduler-Good exits e.readable e.rounds s.queues within in
      let (q, is, same) = reschedule_lem exits e s eq h in
      let good' : Good exits s.queues (resumes q) = rw is at good in
      let (within', accounted) = good' in
      let (d, at', perm) = accounted in
      let alike : d ≡ c = cc (at, at') in
      rw (← same) (record { inv = left (threads q) (rw alike at perm); running = within' })

  -- The running thread `c` with a new place and control block.
  kept-IsSound :
      (c : Thread) (p : Place) (t : Tcb) (s : System) (out' : List Line) {log log' : Log}
      → IsSound s log
      → get_elem? s.queues.ready s.queues.current ≡ some c
      → ((k : Kind)
          → number c.kind ≢ number k
          → (printed_by (number k) out' ≡ printed_by (number k) s.output)
            × (log' (number k) ≡ log (number k)))
      → (Solo args c.kind
            (log (number c.kind))
            (some (c.place, c.tcb))
            (printed_by (number c.kind) s.output)
          → Solo args c.kind (log' (number c.kind)) (some (p, t)) (printed_by (number c.kind) out'))
      → IsSound (keep (record c { place = p; tcb = t }) (record s { output = out' })) log'
  kept-IsSound c p t s out' {log} {log'} sound at others next =
      let split = Split-at s.queues.ready s.queues.current at in
      record {
        inv =
            Inv-perm args
              (Perm.append_right s.queues.waiting (split.changed (record c { place = p; tcb = t })))
              (Inv-head args c (split.rest ++ s.queues.waiting) s.output out' log log' others p t
                next
                (Inv-perm args (Perm.symm (Perm.append_right s.queues.waiting split.whole))
                  sound.inv));
        running = omega (
          arith,
          length-set s.queues.ready s.queues.current (record c { place = p; tcb = t }),
          sound.running,
        );
      }

  after_stop-IsSound :
      (e : Event) (s t : System) (c : Thread) (r : Stop) {log : Log}
      → IsSound s log
      → get_elem? s.queues.ready s.queues.current ≡ some c
      → go c.kind c.place e.line c.tcb ≡ r
      → after_stop e s c r ≡ runs t
      → IsSound t (logged c e.line log)
  unfolding after_stop
  after_stop-IsSound e s t c (ends v) {log} sound at g h =
      let out = s.output ++ printed (number c.kind) v ∷ [] in
      reschedule-exits e c (say (printed (number c.kind) v) s) at sound.running
        (λ rest perm.
          Inv-tail args c rest s.output out log (logged c e.line log)
            (λ k ne. (
              printed_by-other (number c.kind) (number k) v s.output ne,
              logged_other c e.line log (number k) ne,
            ))
            (λ solo.
              rw (printed_by-own (number c.kind) v s.output, logged_own c e.line log)
                (stops e.line solo g))
            (Inv-perm args perm sound.inv))
        h
  after_stop-IsSound e s t c (pauses v u) {log} sound at g h =
      let out = s.output ++ printed (number c.kind) v ∷ [] in
      let kept =
        kept-IsSound c at_yield u s out {log' = logged c e.line log} sound at
          (λ k ne. (
            printed_by-other (number c.kind) (number k) v s.output ne,
            logged_other c e.line log (number k) ne,
          ))
          (λ solo.
            rw (printed_by-own (number c.kind) v s.output, logged_own c e.line log)
              (goes_on e.line solo g)) in
      elim (Option-cases (thread_yield e.tstp e.alrm)) [
        | inl quiet ↦
            let same : keep (record c { place = at_yield; tcb = u }) (record s { output = out })
                ≡ t =
              cc (rw (quiet, after_stop) at h) in
            rw (← same) kept
        | inr (signal, pending) ↦
            reschedule-yields e
              (record { inv = Inv-caught signal out kept.inv; running = kept.running })
              (rw (pending, after_stop) at h)
      ]
  after_stop-IsSound e s t c (awaits u) {log} sound at g h =
      reschedule-reads e
        (kept-IsSound c at_read u s s.output {log' = logged c e.line log} sound at
          (λ k ne. (refl, logged_other c e.line log (number k) ne))
          (λ solo. rw (logged_own c e.line log) (waits e.line solo g)))
        h
  after_stop-IsSound e s t c crashes sound at g h = cc

  step-Inv :
      (e : Event) (s : System) {t : System} {log : Log}
      → Inv args (threads s.queues) s.output log
      → step e s ≡ runs t
      → Inv args (threads t.queues) t.output (log_step e s log)
  unfolding step
  step-Inv e s {t} inv h = elim (Option-cases (get_elem? s.queues.ready s.queues.current)) [
    | inl nobody ↦ cc (rw (nobody, step) at h)
    | inr (c, at) ↦
        rw (at, log_step)
          ((after_stop-IsSound e s t c (go c.kind c.place e.line c.tcb)
            (record { inv = inv; running = (Split-at s.queues.ready s.queues.current at).within })
            at refl (rw (at, step) at h)).inv)
  ]

  -- What the threads have read in a run.
  unfoldable pub read_lines : {s : System} → Reach args s → Log
  read_lines start = no_reads
  read_lines (later {s} e r h) = log_step e s (read_lines r)

  Reach-Inv : {s : System} (r : Reach args s) → Inv args (threads s.queues) s.output (read_lines r)
  unfolding read_lines
  Reach-Inv start = init_threads-Inv args
  Reach-Inv (later {s} e r h) = step-Inv e s (Reach-Inv r) h

  -- In every state that the threads of HW3 reach, whatever signals come and whatever `poll` reports:
  -- the lines of each thread are those that it prints by itself, up to some point, on the lines that
  -- have been read for it.
  pub Reach-Solo :
      {s : System} (r : Reach args s) (k : Kind)
      → ∥ (
          (o : Option (Place × Tcb)) × Solo args k
            (read_lines r (number k))
            o
            (printed_by (number k) s.output)) ∥₁
  Reach-Solo r k = (Reach-Inv r).prints k
