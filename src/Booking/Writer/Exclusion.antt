-- ===== src/Booking/Writer/Exclusion.antt =====
-- Every step of the write server keeps `Inv`, and what follows: two connections never hold one
-- record, and no turn goes outside the arrays.
use mathlib.Core.Path.{subst}
use system_programming_hw.Common.{
  ℕ, ◌≡◌, ◌≢◌, refl, sym, ap, ◌∙◌, true, false, some, update, arith, ℕ_discrete,
}
use system_programming_hw.Common.Int.{pos}
use system_programming_hw.Booking.Session.{Request, Record, Kernel, Server, slot}
use system_programming_hw.Booking.Writer.Turns.{
  connect, Step, accept, input, foreign, Reach, start, later,
}
use system_programming_hw.Booking.Writer.Answers.{is_editing}
use system_programming_hw.Booking.Writer.Inv.{
  Inv, Change, same, quiet, acquire, release, holds, turn-Change,
}

-- A fact about every connection, from the one that has changed and from the others.
pub by_index :
    (P : Request → Type 0) {f g : ℕ → Request} {i : ℕ}
    → ((j : ℕ) → i ≢ j → f j ≡ g j)
    → P (f i)
    → ((j : ℕ) → i ≢ j → P (g j))
    → (j : ℕ) → P (f j)
by_index P {f} {i} o p q j = elim (ℕ_discrete i j) [
  | yes e ↦ subst (λ x. P (f x)) e p
  | no ne ↦ subst P (sym (o j ne)) (q j ne)
]

module _ {kernel : Kernel} {s t : Server kernel.Locks} {i : ℕ} where
  Change-held :
      Inv s
      → Change kernel s t i
      → (j : ℕ) → is_editing (t.requests j) ≡ true
      → (k : ℕ) × (slot (t.requests j).id ≡ some k)
  Change-held inv (same r m l) j =
      subst (λ f. is_editing (f j) ≡ true → (k : ℕ) × (slot (f j).id ≡ some k)) (sym r) (inv.held j)
  Change-held inv (quiet o c b m l) j =
      by_index (λ r. is_editing r ≡ true → (k : ℕ) × (slot r.id ≡ some k)) o (λ h. cc)
        (λ j _. inv.held j) j
  Change-held inv (acquire k o f c at m g l) j =
      by_index (λ r. is_editing r ≡ true → (k : ℕ) × (slot r.id ≡ some k)) o (λ _. (k, at))
        (λ j _. inv.held j) j
  Change-held inv (release k o h c b m l) j =
      by_index (λ r. is_editing r ≡ true → (k : ℕ) × (slot r.id ≡ some k)) o (λ h. cc)
        (λ j _. inv.held j) j

  Change-blank :
      Inv s
      → Change kernel s t i
      → (j : ℕ) → is_editing (t.requests j) ≡ false
      → (t.requests j).id ≡ pos 0
  Change-blank inv (same r m l) j =
      subst (λ f. is_editing (f j) ≡ false → (f j).id ≡ pos 0) (sym r) (inv.blank j)
  Change-blank inv (quiet o c b m l) j =
      by_index (λ r. is_editing r ≡ false → r.id ≡ pos 0) o (λ _. b) (λ j _. inv.blank j) j
  Change-blank inv (acquire k o f c at m g l) j =
      by_index (λ r. is_editing r ≡ false → r.id ≡ pos 0) o (λ h. cc) (λ j _. inv.blank j) j
  Change-blank inv (release k o h c b m l) j =
      by_index (λ r. is_editing r ≡ false → r.id ≡ pos 0) o (λ _. b) (λ j _. inv.blank j) j

  Change-marked :
      Inv s
      → Change kernel s t i
      → (j k : ℕ) → holds (t.requests j) ≡ some k
      → t.self_lock k ≡ pos 1
  Change-marked inv (same r m l) j k =
      rw m (subst (λ f. holds (f j) ≡ some k → s.self_lock k ≡ pos 1) (sym r) (inv.marked j k))
  Change-marked inv (quiet o c b m l) j k = rw m (
      by_index (λ r. holds r ≡ some k → s.self_lock k ≡ pos 1) o (λ h. ground arith)
        (λ j _. inv.marked j k) j)
  Change-marked inv (acquire k' o f c at m g l) j k = rw m (
      by_index (λ r. holds r ≡ some k → update s.self_lock k' (pos 1) k ≡ pos 1) o
        (λ h. ground arith) (λ j _ h. ground (arith, inv.marked j k h)) j)
  Change-marked inv (release k' o h c b m l) j k = rw m (
      by_index (λ r. holds r ≡ some k → update s.self_lock k' (pos 0) k ≡ pos 1) o
        (λ h. ground arith)
        (λ j ne hj. elim (ℕ_discrete k' k) [
          | yes e ↦ absurd (ne (inv.unique i j k (h ∙ ap some e) hj))
          | no ne' ↦ ground (arith, inv.marked j k hj)
        ])
        j)

  -- No other connection holds what the changed one holds.
  Change-alone :
      Inv s
      → Change kernel s t i
      → (j k : ℕ) → i ≢ j
      → holds (t.requests i) ≡ some k
      → holds (s.requests j) ≢ some k
  Change-alone inv (same r m l) j k ne hi hj =
      ne (inv.unique i j k (subst (λ f. holds (f i) ≡ some k) r hi) hj)
  Change-alone inv (quiet o c b m l) j k ne hi hj = ground arith
  Change-alone inv (acquire k' o f c at m g l) j k ne hi hj = ground (arith, inv.marked j k hj)
  Change-alone inv (release k' o h c b m l) j k ne hi hj = ground arith

  pub others_of : Change kernel s t i → (j : ℕ) → i ≢ j → t.requests j ≡ s.requests j
  others_of (same r m l) j ne = ap (λ f. f j) r
  others_of (quiet o c b m l) j ne = o j ne
  others_of (acquire k o f c at m g l) j ne = o j ne
  others_of (release k o h c b m l) j ne = o j ne

  Change-unique :
      Inv s
      → Change kernel s t i
      → (a b k : ℕ) → holds (t.requests a) ≡ some k
      → holds (t.requests b) ≡ some k
      → a ≡ b
  Change-unique inv c a b k ha hb = elim (ℕ_discrete i a) [
    | yes ia ↦ elim (ℕ_discrete i b) [
      | yes ib ↦ sym ia ∙ ib
      | no nb ↦ absurd (
          Change-alone inv c b k nb (subst (λ x. holds (t.requests x) ≡ some k) (sym ia) ha)
            (rw (others_of c b nb) at hb))
    ]
    | no na ↦ elim (ℕ_discrete i b) [
      | yes ib ↦ absurd (
          Change-alone inv c a k na (subst (λ x. holds (t.requests x) ≡ some k) (sym ib) hb)
            (rw (others_of c a na) at ha))
      | no nb ↦ inv.unique a b k (rw (others_of c a na) at ha) (rw (others_of c b nb) at hb)
    ]
  ]

  pub Change-Inv : Inv s → Change kernel s t i → Inv t
  Change-Inv inv c = record {
    held = Change-held inv c;
    marked = Change-marked inv c;
    unique = Change-unique inv c;
    blank = Change-blank inv c;
  }

module _ (kernel : Kernel) where
  pub Step-Inv : {s t : Server kernel.Locks} → Inv s → Step kernel s t → Inv t
  unfolding connect
  Step-Inv {s} inv (accept i closed) =
      Change-Inv {kernel = kernel} {t = connect i s} {i = i} inv
        (quiet (λ j ne. ground arith) (ground arith) (ground (arith, inv.blank i)) refl refl)
  Step-Inv {s} inv (input i given {fd} {t} opened e) =
      Change-Inv inv (turn-Change kernel i fd given s t inv opened e)
  Step-Inv inv (foreign l file) = record {
    held = inv.held;
    marked = inv.marked;
    unique = inv.unique;
    blank = inv.blank;
  }

  -- In every state that the write server reaches, each connection that awaits its command holds the
  -- record of its id, the mark of a held record is 1, no record is held by two connections, and
  -- every other connection has the id 0.
  pub Reach-Inv :
      {file : ℕ → Record} {l : kernel.Locks} {s : Server kernel.Locks}
      → Reach kernel file l s
      → Inv s
  Reach-Inv start = record {
    held = λ i h. cc;
    marked = λ i k h. cc;
    unique = λ i j k h. cc;
    blank = λ i h. refl;
  }
  Reach-Inv (later r st) = Step-Inv (Reach-Inv r) st

  -- Two connections never edit the same record: if both await a command and their ids name the
  -- same record, they are one connection.
  pub mutual_exclusion :
      {file : ℕ → Record} {l : kernel.Locks} {s : Server kernel.Locks}
      → Reach kernel file l s
      → (i j k : ℕ) → is_editing (s.requests i) ≡ true
      → is_editing (s.requests j) ≡ true
      → slot (s.requests i).id ≡ some k
      → slot (s.requests j).id ≡ some k
      → i ≡ j
  mutual_exclusion r i j k ei ej ki kj = (Reach-Inv r).unique i j k (ground arith) (ground arith)
