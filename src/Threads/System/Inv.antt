-- ===== src/Threads/System/Inv.antt =====
-- Whatever the signals and the scheduler do, each thread prints what it would print by itself.
use mathlib.Core.List.{Perm, Mem, mem-cons, mem-cons_self, Nodup, Nodup-cons, mem-map_of_mem}
use mathlib.Core.Logic.Or
use mathlib.Core.Logic.{∥∥₁_map, ∥∥₁_prop}
use mathlib.Core.Path.{subst}
use mathlib.Core.List.Perm
use system_programming_hw.Common.{
  ℕ, ◌≡◌, ◌≢◌, refl, sym, List, [], ◌∷◌, ◌++◌, map, Option, none, some, ◌==◌, arith, ℕ_discrete,
  if◌then◌else◌,
}
use system_programming_hw.Common.Int.{ℤ}
use system_programming_hw.Threads.Bodies.{Tcb}
use system_programming_hw.Threads.System.{
  Kind, fibonacci_thread, collatz_thread, subarray_thread, number, Place, Thread, Line, printed,
  caught,
}
use system_programming_hw.Threads.System.Solo.{Solo}

-- What the thread with the id `n` has printed.
abbrev pub printed_by : ℕ → List Line → List ℤ
printed_by n [] = []
printed_by n (printed id v ∷ out) = if id == n then v ∷ printed_by n out else printed_by n out
printed_by n (caught signal ∷ out) = printed_by n out

pub printed_by-append :
    (n : ℕ) (out more : List Line)
    → printed_by n (out ++ more) ≡ printed_by n out ++ printed_by n more
printed_by-append n [] more = refl
printed_by-append n (printed id v ∷ out) more = ground (arith, printed_by-append n out more)
printed_by-append n (caught signal ∷ out) more = printed_by-append n out more

number_inj : (j k : Kind) → number j ≡ number k → j ≡ k
number_inj fibonacci_thread fibonacci_thread e = refl
number_inj fibonacci_thread collatz_thread e = absurd (omega arith)
number_inj fibonacci_thread subarray_thread e = absurd (omega arith)
number_inj collatz_thread fibonacci_thread e = absurd (omega arith)
number_inj collatz_thread collatz_thread e = refl
number_inj collatz_thread subarray_thread e = absurd (omega arith)
number_inj subarray_thread fibonacci_thread e = absurd (omega arith)
number_inj subarray_thread collatz_thread e = absurd (omega arith)
number_inj subarray_thread subarray_thread e = refl

-- What each thread has read, by its id, the last line first.
abbrev pub Log : Type 0
Log = ℕ → List (List ℕ)

module _ (args : Kind → ℤ) where
  -- The thread has come by itself to its place, with what it has printed.
  abbrev pub Fits : List Line → Log → Thread → Type 0
  Fits out log th =
      ∥ Solo args th.kind (log (number th.kind)) (some (th.place, th.tcb))
        (printed_by (number th.kind) out) ∥₁

  -- What has been printed for a kind is what its thread prints by itself, on what it has read.
  abbrev pub Prints : List Line → Log → Kind → Type 0
  Prints out log k =
      ∥ ((o : Option (Place × Tcb)) × Solo args k (log (number k)) o (printed_by (number k) out)) ∥₁

  -- Every thread of a list has, and no two are of one kind; and whatever has been printed for a kind
  -- is what its thread prints by itself.
  pub record Inv (xs : List Thread) (out : List Line) (log : Log) : Type 0 where
    pub fits : (th : Thread) → Mem th xs → Fits out log th
    pub apart : Nodup (map (λ (th : Thread). number th.kind) xs)
    pub prints : (k : Kind) → Prints out log k

  pub Inv-perm :
      {xs ys : List Thread} {out : List Line} {log : Log}
      → Perm ys xs
      → Inv xs out log
      → Inv ys out log
  Inv-perm p inv = record {
    fits = λ th m. inv.fits th ((Perm.mem_iff p).0 m);
    apart = Perm.nodup (Perm.symm (Perm.map (λ (th : Thread). number th.kind) p)) inv.apart;
    prints = inv.prints;
  }

  module _ (c : Thread) (rest : List Thread) (out out' : List Line) (log log' : Log)
      (others : (k : Kind)
        → number c.kind ≢ number k
        → (printed_by (number k) out' ≡ printed_by (number k) out)
          × (log' (number k) ≡ log (number k))) where
    -- The threads of other kinds have printed nothing.
    rest-Fits : Inv (c ∷ rest) out log → (th : Thread) → Mem th rest → Fits out' log' th
    rest-Fits inv th m =
        let unlike = (Nodup-cons.0 inv.apart).0 in
        let same =
          others th.kind
            (λ e. unlike (rw e (mem-map_of_mem (λ (th : Thread). number th.kind) m))) in
        rw (same.0, same.1) (inv.fits th (mem-cons.1 (Or.inr m)))

    Prints-by_kind :
        Inv (c ∷ rest) out log → Prints out' log' c.kind → (k : Kind) → Prints out' log' k
    Prints-by_kind inv own k = elim (ℕ_discrete (number c.kind) (number k)) [
      | yes e ↦ subst (Prints out' log') (number_inj c.kind k e) own
      | no ne ↦ let same = others k ne in rw (same.0, same.1) (inv.prints k)
    ]

    -- The thread at the head goes on, with what it prints.
    pub Inv-head :
        (p : Place) (t : Tcb)
        → (Solo args c.kind
              (log (number c.kind))
              (some (c.place, c.tcb))
              (printed_by (number c.kind) out)
            → Solo args c.kind
                (log' (number c.kind))
                (some (p, t))
                (printed_by (number c.kind) out'))
        → Inv (c ∷ rest) out log
        → Inv (record c { place = p; tcb = t } ∷ rest) out' log'
    Inv-head p t next inv =
        let now = ∥∥₁_map (inv.fits c mem-cons_self) next in
        record {
          fits = λ th m.
              Or.elim ∥∥₁_prop (mem-cons.0 m) (λ e. subst (Fits out' log') (sym e) now)
                (rest-Fits inv th);
          apart = inv.apart;
          prints = Prints-by_kind inv (∥∥₁_map now (λ solo. (some (p, t), solo)));
        }

    -- The thread at the head ends.
    pub Inv-tail :
        (Solo args c.kind
            (log (number c.kind))
            (some (c.place, c.tcb))
            (printed_by (number c.kind) out)
          → Solo args c.kind (log' (number c.kind)) none (printed_by (number c.kind) out'))
        → Inv (c ∷ rest) out log
        → Inv rest out' log'
    Inv-tail next inv = record {
      fits = rest-Fits inv;
      apart = (Nodup-cons.0 inv.apart).1;
      prints = Prints-by_kind inv (∥∥₁_map (inv.fits c mem-cons_self) (λ solo. (none, next solo)));
    }
