-- ===== src/Booking/Writer/File.antt =====
-- What a turn of the write server writes to the record file.
use mathlib.Core.Path.{subst}
use system_programming_hw.Common.{
  ℕ, ◌≡◌, refl, sym, ap, ◌∙◌, not, ◌||◌, List, [], ◌∷◌, some, update, arith, Bool-cases, ◌==◌,
  Option-cases, inl, inr,
}
use system_programming_hw.Common.Int.{ℤ}
use system_programming_hw.Text.{atoi, c_string, starts_with}
use system_programming_hw.Booking.Parse.{myatoi, is_zero}
use system_programming_hw.Booking.Rules.{Verdict, too_many, below_zero, booked, check_booking}
use system_programming_hw.Booking.Rules.Laws.{IsValid, IsModestCommand, check_booking-IsValid_iff}
use system_programming_hw.Booking.Session.{
  Request, Record, Kernel, Input, failed, received, Ret, Server, slot, Outcome, exits, stray,
  overruns, returns, f_wrlck,
}
use system_programming_hw.Booking.Writer.{
  handle_read, handle_buffer, handle_interrupt, handle_text, identify, settle, book, is_one,
  is_unlocked, has_newline,
}
use system_programming_hw.Booking.Writer.Turns.{answer, turn}
use system_programming_hw.Booking.Writer.Answers.{answer-records}
use system_programming_hw.Booking.Writer.Inv.{holds}

-- The file after a turn for the request `r` with the text `buf`: as it was, or with the record that
-- the connection holds changed as its command says, where the checks accept the command.
pub data FileChange (file : ℕ → Record) (r : Request) (buf : List ℕ) (after : ℕ → Record)
    : Type 0 where
  untouched : after ≡ file → FileChange file r buf after
  written :
      (k : ℕ) (nums out : List ℤ)
      → holds r ≡ some k
      → myatoi buf ≡ some nums
      → check_booking (file k).booking_state nums ≡ booked out
      → after ≡ update file k (record (file k) { booking_state = out })
      → FileChange file r buf after

-- The C string that an input puts into `buf`.
abbrev pub text_of : Input → List ℕ
unfolding c_string
text_of failed = []
text_of (received bytes) = c_string bytes

module _ (kernel : Kernel) (i : ℕ) (s : Server kernel.Locks) where
  abbrev Writes : List ℕ → Outcome (Ret × Server kernel.Locks) → Type 0
  Writes buf exits = Unit
  Writes buf stray = Unit
  Writes buf (returns (ret, m)) = FileChange s.records (s.requests i) buf m.records

  module _ {fd : ℕ} (opened : (s.requests i).conn_fd ≡ some fd) where
    identify-Writes : (buf : List ℕ) → Writes buf (identify kernel i buf s)
    unfolding identify
    identify-Writes buf = elim (Option-cases (slot (atoi buf))) [
      | inl none_such ↦ rw (none_such, identify, Writes) (untouched refl)
      | inr (k, at) ↦
          elim (Bool-cases
            (not (is_unlocked (kernel.getlk s.locks k f_wrlck)) || is_one (s.self_lock k))) [
              | inl busy ↦ rw (at, busy, identify, Writes) (untouched refl)
              | inr free ↦ rw (at, free, identify, Writes) (untouched refl)
            ]
    ]

    settle-Writes :
        (k : ℕ) (buf : List ℕ) (nums : List ℤ) (v : Verdict)
        → holds (s.requests i) ≡ some k
        → myatoi buf ≡ some nums
        → check_booking (s.records k).booking_state nums ≡ v
        → Writes buf (returns (settle kernel i k v s))
    unfolding settle
    settle-Writes k buf nums too_many h p e = untouched refl
    settle-Writes k buf nums below_zero h p e = untouched refl
    settle-Writes k buf nums (booked out) h p e = written k nums out h p e refl

    book-Writes :
        (k : ℕ) (buf : List ℕ) → holds (s.requests i) ≡ some k → Writes buf (book kernel i k buf s)
    unfolding book
    book-Writes k buf h = elim (Option-cases (myatoi buf)) [
      | inl bad ↦ rw (bad, book, Writes) (untouched refl)
      | inr (nums, good) ↦ rw (good, book, Writes) (settle-Writes k buf nums _ h good refl)
    ]

    handle_text-Writes : (buf : List ℕ) → Writes buf (handle_text kernel i buf s)
    unfolding handle_text
    handle_text-Writes buf = elim (Bool-cases (s.requests i).wait_for_write) [
      | inl waiting ↦ rw (waiting, handle_text, Writes) (identify-Writes buf)
      | inr ready ↦ elim (Option-cases (slot (s.requests i).id)) [
        | inl none_such ↦ rw (ready, none_such, handle_text, Writes) tt
        | inr (k, at) ↦ rw (ready, at, handle_text, Writes) (book-Writes k buf (ground arith))
      ]
    ]

    handle_interrupt-Writes : (buf : List ℕ) → Writes buf (handle_interrupt kernel i s)
    unfolding handle_interrupt
    handle_interrupt-Writes buf = elim (Bool-cases (is_zero (s.requests i).id)) [
      | inl zero_id ↦ rw (zero_id, handle_interrupt, Writes) (untouched refl)
      | inr some_id ↦ elim (Option-cases (slot (s.requests i).id)) [
        | inl none_such ↦ rw (some_id, none_such, handle_interrupt, Writes) tt
        | inr (k, at) ↦ rw (some_id, at, handle_interrupt, Writes) (untouched refl)
      ]
    ]

    handle_buffer-Writes : (buf : List ℕ) → Writes buf (handle_buffer kernel i buf s)
    unfolding handle_buffer
    handle_buffer-Writes buf = elim (Bool-cases (has_newline buf)) [
      | inl text ↦ rw (text, handle_buffer, Writes) (handle_text-Writes buf)
      | inr bare ↦ elim (Bool-cases (starts_with (255 ∷ 244 ∷ []) buf)) [
        | inl iac ↦ rw (bare, iac, handle_buffer, Writes) (handle_interrupt-Writes buf)
        | inr none_such ↦ rw (bare, none_such, handle_buffer, Writes) tt
      ]
    ]

    handle_read-Writes : (given : Input) → Writes (text_of given) (handle_read kernel i given s)
    unfolding handle_read c_string
    handle_read-Writes failed = untouched refl
    handle_read-Writes (received []) = untouched refl
    handle_read-Writes (received (c ∷ cs)) = elim (Bool-cases (overruns (c_string (c ∷ cs)))) [
      | inl over ↦ rw (over, handle_read, Writes) tt
      | inr fits ↦ rw (fits, handle_read, Writes) (handle_buffer-Writes (c_string (c ∷ cs)))
    ]

-- A turn for an open connection leaves the record file as it was, or writes the one record that the connection holds, with
-- counts that the checks have accepted for the command that the connection has sent.
pub turn-FileChange :
    (kernel : Kernel) (i fd : ℕ) (given : Input) (s t : Server kernel.Locks)
    → (s.requests i).conn_fd ≡ some fd
    → turn kernel i given s ≡ returns t
    → FileChange s.records (s.requests i) (text_of given) t.records
unfolding turn
turn-FileChange kernel i fd given s t opened =
    by_outcome (handle_read kernel i given s) (handle_read-Writes kernel i s opened given)
  where
    by_outcome :
        (o : Outcome (Ret × Server kernel.Locks))
        → Writes kernel i s (text_of given) o
        → (elim o [ exits ↦ exits | stray ↦ stray | returns (ret, m) ↦ returns (answer i ret m) ])
          ≡ returns t
        → FileChange s.records (s.requests i) (text_of given) t.records
    by_outcome exits w e = cc
    by_outcome stray w e = cc
    by_outcome (returns (ret, m)) w e =
        let q : answer i ret m ≡ t = cc in
        subst (FileChange s.records (s.requests i) (text_of given))
          (sym (answer-records i ret m) ∙ ap (λ (u : Server kernel.Locks). u.records) q) w

-- Every record of the file is within the rules.
abbrev pub AllValid : (ℕ → Record) → Type 0
AllValid file = (k : ℕ) → IsValid (file k).booking_state

-- The command in a text, if there is one, changes no count by more than 700 million.
abbrev pub IsModestText : List ℕ → Type 0
IsModestText buf = (nums : List ℤ) → myatoi buf ≡ some nums → IsModestCommand nums

FileChange-AllValid :
    {file after : ℕ → Record} {r : Request} {buf : List ℕ}
    → AllValid file
    → IsModestText buf
    → FileChange file r buf after
    → AllValid after
FileChange-AllValid valid modest (untouched e) k = rw e (valid k)
FileChange-AllValid {file} valid modest (written k' nums out h p e w) k =
    elim (Bool-cases (k' == k)) [
      | inl same ↦
          rw (w, same) ((check_booking-IsValid_iff _ nums out (valid k') (modest nums p)).0 e).1
      | inr other ↦ rw (w, other) (valid k)
    ]

-- A turn for an open connection keeps every record of the file within the rules, if the command
-- that it reads, where it reads one, changes no count by more than 700 million.
pub turn-AllValid :
    (kernel : Kernel) (i fd : ℕ) (given : Input) (s t : Server kernel.Locks)
    → (s.requests i).conn_fd ≡ some fd
    → turn kernel i given s ≡ returns t
    → AllValid s.records
    → IsModestText (text_of given)
    → AllValid t.records
unfolding c_string
turn-AllValid kernel i fd given s t opened e valid modest =
    FileChange-AllValid valid modest (turn-FileChange kernel i fd given s t opened e)
