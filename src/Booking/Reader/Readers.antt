-- ===== src/Booking/Reader/Readers.antt =====
-- `self_lock` of the read server counts at least the connections that hold a record.
use system_programming_hw.Common.{
  ℕ, zero, suc, ◌+◌, ◌-◌, ◌≤◌, ◌<◌, ◌≡◌, ◌≢◌, refl, ap, ◌∙◌, Option, none, some, ◌==◌,
  if◌then◌else◌, arith, inl, inr, ℕ_discrete,
}
use system_programming_hw.Common.Int.{pos, ◌+ℤ◌, ◌-ℤ◌, wrap32}
use system_programming_hw.Booking.Session.{Request, Record, Kernel, Server}
use system_programming_hw.Booking.Writer.Turns.{started}
use system_programming_hw.Booking.Reader.Turns.{
  connect, Step, accept, input, foreign, Reach, start, later,
}
use system_programming_hw.Booking.Reader.Answers.{holds, IsTidy}
use system_programming_hw.Booking.Reader.Effect.{Locking, idle, takes, gives, Effect, turn-Effect}
use system_programming_hw.Booking.Writer.Exclusion.{by_index}

-- 1 for record `k`, and 0 for any other or none.
abbrev pub one : Option ℕ → ℕ → ℕ
one none k = 0
one (some j) k = if j == k then 1 else 0

-- The connections below `n` that hold record `k`.
unfoldable pub count : (ℕ → Request) → ℕ → ℕ → ℕ
count f k zero = 0
count f k (suc n) = one (holds (f n)) k + count f k n

module _ {f g : ℕ → Request} {i : ℕ} (others : (j : ℕ) → i ≢ j → f j ≡ g j) (k : ℕ) where
  count-others : (n : ℕ) → n ≤ i → count f k n ≡ count g k n
  unfolding count
  count-others zero h = refl
  count-others (suc n) h =
      let e : f n ≡ g n = others n (λ e. omega (arith, e)) in rw (e, count-others n (omega arith))

  -- What one connection adds to the count.
  pub count-at :
      (n : ℕ) → i < n → count f k n + one (holds (g i)) k ≡ count g k n + one (holds (f i)) k
  unfolding count
  count-at zero h = absurd (omega arith)
  count-at (suc n) h = elim (ℕ_discrete i n) [
    | yes e ↦ rw (← e, count-others i (omega arith)) (omega arith)
    | no ne ↦ rw (others n ne) (omega (arith, count-at n (omega (arith, ne))))
  ]

-- A connection that holds record `k` is counted.
pub count_pos : (f : ℕ → Request) (k n j : ℕ) → j < n → holds (f j) ≡ some k → 0 < count f k n
unfolding count
count_pos f k zero j h at = absurd (omega arith)
count_pos f k (suc n) j h at = elim (ℕ_discrete j n) [
  | yes e ↦ rw (← e, at) (ground arith)
  | no ne ↦ omega (arith, count_pos f k n j (omega (arith, ne)) at)
]

-- The count of record `k` is `c`, after at most `n` steps.
pub record Counted {L : Type 0} (n : ℕ) (s : Server L) (k : ℕ) (c : ℕ) : Type 0 where
  pub counter : s.self_lock k ≡ pos c
  pub enough : count s.requests k 1024 ≤ c
  pub few : c ≤ n

-- The counter is at most the number of steps, and at least the number of holders, which it exceeds
-- after a turn by no less than before.
pub record Kept {L : Type 0} (n : ℕ) (s t : Server L) (k c : ℕ) : Type 0 where
  pub after : ℕ
  pub counter : t.self_lock k ≡ pos after
  pub margin : c + count t.requests k 1024 ≤ after + count s.requests k 1024
  pub few : after ≤ suc n

up : (c : ℕ) → c < 2147483647 → wrap32 (pos c +ℤ pos 1) ≡ pos (suc c)
unfolding wrap32 ◌+ℤ◌
up c h = ground arith

pub down : (c : ℕ) → 0 < c → c < 2147483647 → wrap32 (pos c -ℤ pos 1) ≡ pos (c - 1)
unfolding wrap32 ◌-ℤ◌
down c p h = ground arith

module _ (kernel : Kernel) {n i : ℕ} {s t : Server kernel.Locks} (small : n < 2147483647)
    (within : i < 1024) (o : (j : ℕ) → i ≢ j → t.requests j ≡ s.requests j) where
  Locking-Kept : Locking kernel s t i → (k c : ℕ) → Counted n s k c → Kept n s t k c
  Locking-Kept (idle (inl e) m l) k c h = record {
    after = c;
    counter = rw m h.counter;
    margin = ground (arith, count-at {f = t.requests} {g = s.requests} o k 1024 within, h.few);
    few = omega (arith, h.few);
  }
  Locking-Kept (idle (inr e) m l) k c h = record {
    after = c;
    counter = rw m h.counter;
    margin = ground (arith, count-at {f = t.requests} {g = s.requests} o k 1024 within, h.few);
    few = omega (arith, h.few);
  }
  Locking-Kept (takes k' a b m l g) k c h = elim (ℕ_discrete k' k) [
    | yes e ↦ record {
      after = suc c;
      counter = rw (m, e, h.counter, up c (omega (arith, h.few))) (ground arith);
      margin = ground (arith, count-at {f = t.requests} {g = s.requests} o k 1024 within);
      few = omega (arith, h.few);
    }
    | no ne ↦ record {
      after = c;
      counter = rw m (ground (arith, h.counter));
      margin = ground (arith, count-at {f = t.requests} {g = s.requests} o k 1024 within);
      few = omega (arith, h.few);
    }
  ]
  Locking-Kept (gives k' a b m l) k c h = elim (ℕ_discrete k' k) [
    | yes e ↦
        let some_holder : 0 < c =
          omega (arith, h.enough, count_pos s.requests k 1024 i within (a ∙ ap some e)) in
        record {
          after = c - 1;
          counter = rw (m, e, h.counter, down c some_holder (omega (arith, h.few))) (ground arith);
          margin = ground (arith, count-at {f = t.requests} {g = s.requests} o k 1024 within);
          few = omega (arith, h.few);
        }
    | no ne ↦ record {
      after = c;
      counter = rw m (ground (arith, h.counter));
      margin = ground (arith, count-at {f = t.requests} {g = s.requests} o k 1024 within);
      few = omega (arith, h.few);
    }
  ]

-- Every connection is tidy, and every counter counts.
pub record Inv {L : Type 0} (n : ℕ) (s : Server L) : Type 0 where
  pub tidy : (j : ℕ) → IsTidy (s.requests j)
  pub counted : (k : ℕ) → (c : ℕ) × Counted n s k c

connect-Effect :
    (kernel : Kernel) (i : ℕ) (s : Server kernel.Locks)
    → IsTidy (s.requests i)
    → (s.requests i).conn_fd ≡ none
    → Effect kernel s (connect i s) i
unfolding connect
connect-Effect kernel i s tidy closed = record {
  others = λ j ne. ground arith;
  tidy = record { held = λ h. ground arith; blank = λ h. ground (arith, tidy.blank) };
  locking = idle (inl (ground arith)) refl refl;
}

module _ (kernel : Kernel) where
  -- What a step does to a counter.
  pub Step-Kept :
      {n : ℕ} {s t : Server kernel.Locks}
      → n < 2147483647
      → ((j : ℕ) → IsTidy (s.requests j))
      → Step kernel s t
      → (k c : ℕ) → Counted n s k c
      → Kept n s t k c
  Step-Kept {n} {s} small tidy (accept i within closed) k c h =
      let e = connect-Effect kernel i s (tidy i) closed in
      Locking-Kept kernel small within e.others e.locking k c h
  Step-Kept {n} {s} {t} small tidy (input i given {fd} within opened e) k c h =
      let e = turn-Effect kernel i fd given s t (tidy i) opened e in
      Locking-Kept kernel small within e.others e.locking k c h
  Step-Kept small tidy (foreign l file) k c h = record {
    after = c;
    counter = h.counter;
    margin = omega arith;
    few = omega (arith, h.few);
  }

  pub Step-IsTidy :
      {s t : Server kernel.Locks}
      → ((j : ℕ) → IsTidy (s.requests j))
      → Step kernel s t
      → (j : ℕ) → IsTidy (t.requests j)
  Step-IsTidy {s} tidy (accept i within closed) j =
      let e = connect-Effect kernel i s (tidy i) closed in
      by_index IsTidy {f = (connect i s).requests} {g = s.requests} {i = i} e.others e.tidy
        (λ j _. tidy j) j
  Step-IsTidy {s} {t} tidy (input i given {fd} within opened e) j =
      let e = turn-Effect kernel i fd given s t (tidy i) opened e in
      by_index IsTidy {f = t.requests} {g = s.requests} {i = i} e.others e.tidy (λ j _. tidy j) j
  Step-IsTidy tidy (foreign l file) j = tidy j

  pub Step-Inv :
      {n : ℕ} {s t : Server kernel.Locks}
      → n < 2147483647
      → Inv n s
      → Step kernel s t
      → Inv (suc n) t
  Step-Inv small inv st = record {
    tidy = Step-IsTidy inv.tidy st;
    counted = λ k.
        let (c, h) = inv.counted k in
        let kept = Step-Kept small inv.tidy st k c h in
        (
          kept.after,
          record {
            counter = kept.counter;
            enough = omega (arith, kept.margin, h.enough);
            few = kept.few;
          },
        );
  }

  count-none : (f : ℕ → Request) (k n : ℕ) → ((j : ℕ) → holds (f j) ≡ none) → count f k n ≡ 0
  unfolding count
  count-none f k zero h = refl
  count-none f k (suc n) h = rw (h n, count-none f k n h) (omega arith)

  -- After any number of steps below 2^31 - 1, each counter of the read server is at least the number
  -- of the open connections that hold its record, and at most the number of steps; a reading
  -- connection has the id of a record, and every other connection has the id 0.
  pub reader-Inv :
      {file : ℕ → Record} {l : kernel.Locks} {n : ℕ} {s : Server kernel.Locks}
      → n < 2147483647
      → Reach kernel file l n s
      → Inv n s
  reader-Inv {file} {l} small start = record {
    tidy = λ j. record { held = λ h. cc; blank = λ _. refl };
    counted = λ k. (
      0,
      record {
        counter = refl;
        enough = rw (count-none (started kernel file l).requests k 1024 (λ j. refl)) (omega arith);
        few = omega arith;
      },
    );
  }
  reader-Inv small (later r st) = Step-Inv (omega arith) (reader-Inv (omega arith) r) st
