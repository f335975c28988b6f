-- ===== src/Booking/Reader/Answers.antt =====
-- What `main` does by the return value of `handle_read`, for the read server.
use system_programming_hw.Common.{
  ℕ, ◌≡◌, ◌≢◌, refl, Bool, true, false, ◌&&◌, ◌++◌, [], ◌∷◌, Option, none, some, if◌then◌else◌,
  arith,
}
use system_programming_hw.Common.Int.{pos}
use system_programming_hw.Text.{codes, same_text}
use system_programming_hw.Booking.Rules.{Counts}
use system_programming_hw.Booking.Session.{
  Request, Ret, bad_read, rejected, fine, locked, interrupted, over_limit, negative, Server, slot,
  show_items, obj_names,
}
use system_programming_hw.Booking.Writer.Answers.{is_open, gives_up}
use system_programming_hw.Booking.Reader.Turns.{answer}

-- The connection has locked a record for reading.
abbrev pub is_reading : Request → Bool
is_reading r = is_open r && r.done

-- The record that a connection holds.
abbrev pub holds : Request → Option ℕ
holds r = if is_reading r then slot r.id else none

-- A reading connection has the id of a record, and any other the id 0.
pub record IsTidy (r : Request) : Type 0 where
  pub held : is_reading r ≡ true → (k : ℕ) × (slot r.id ≡ some k)
  pub blank : is_reading r ≡ false → r.id ≡ pos 0

module _ {L : Type 0} (i : ℕ) where
  -- Connection `i` has been given up, and nothing else has changed.
  pub record Closed (m t : Server L) : Type 0 where
    pub others : (j : ℕ) → i ≢ j → t.requests j ≡ m.requests j
    pub shut : (t.requests i).conn_fd ≡ none
    pub blank : (t.requests i).id ≡ pos 0
    pub counts : t.self_lock ≡ m.self_lock
    pub kept : t.locks ≡ m.locks

  pub answer-Closed : (ret : Ret) (m : Server L) → gives_up ret ≡ true → Closed m (answer i ret m)
  unfolding answer
  answer-Closed bad_read m h = cc
  answer-Closed fine m h = cc
  answer-Closed rejected m h = ground arith
  answer-Closed over_limit m h = ground arith
  answer-Closed negative m h = ground arith
  answer-Closed locked m h = ground arith
  answer-Closed interrupted m h = ground arith

  -- A success with the text "Exit" ends the connection too.
  pub exit-Closed :
      (m : Server L)
      → same_text (m.requests i).buf (codes "Exit") ≡ true
      → Closed m (answer i fine m)
  unfolding answer
  exit-Closed m h = rw h (ground arith)

  -- After any other success the connection goes on.
  pub record Advanced (m t : Server L) : Type 0 where
    pub others : (j : ℕ) → i ≢ j → t.requests j ≡ m.requests j
    pub same_fd : (t.requests i).conn_fd ≡ (m.requests i).conn_fd
    pub same_id : (t.requests i).id ≡ (m.requests i).id
    pub reads : (t.requests i).done ≡ true
    pub counts : t.self_lock ≡ m.self_lock
    pub kept : t.locks ≡ m.locks

  pub fine-Advanced :
      (m : Server L)
      → same_text (m.requests i).buf (codes "Exit") ≡ false
      → Advanced m (answer i fine m)
  unfolding answer
  fine-Advanced m h = rw h (ground arith)

-- What is shown of a record is not the text "Exit".
pub shown-ne-exit :
    (counts : Counts) → same_text (show_items obj_names counts ++ codes "\n") (codes "Exit") ≡ false
unfolding show_items same_text
shown-ne-exit [] = refl
shown-ne-exit (b ∷ bs) = refl
