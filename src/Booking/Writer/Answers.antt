-- ===== src/Booking/Writer/Answers.antt =====
-- What the answers of the write server leave of a connection.
use system_programming_hw.Common.{
  ℕ, ◌≡◌, ◌≢◌, refl, Bool, true, false, not, ◌&&◌, List, none, some, arith, Bool-cases, inl, inr,
}
use system_programming_hw.Common.Int.{pos}
use system_programming_hw.Booking.Session.{
  Request, Ret, bad_read, rejected, fine, over_limit, negative, locked, interrupted, Server,
  hang_up,
}
use system_programming_hw.Booking.Writer.Turns.{after_read, give_up, answer}

abbrev pub is_open : Request → Bool
is_open r = elim r.conn_fd [ none ↦ false | some _ ↦ true ]

-- The connection has locked a record and its command is awaited.
abbrev pub is_editing : Request → Bool
is_editing r = is_open r && not r.wait_for_write

-- The return values after which `main` gives the connection up.
abbrev pub gives_up : Ret → Bool
gives_up bad_read = false
gives_up fine = false
gives_up rejected = true
gives_up over_limit = true
gives_up negative = true
gives_up locked = true
gives_up interrupted = true

module _ {L : Type 0} (i : ℕ) where
  -- Connection `i` has been given up, and nothing else has changed.
  pub record Closed (m t : Server L) : Type 0 where
    pub others : (j : ℕ) → i ≢ j → t.requests j ≡ m.requests j
    pub shut : (t.requests i).conn_fd ≡ none
    pub blank : (t.requests i).id ≡ pos 0
    pub marks : t.self_lock ≡ m.self_lock
    pub file : t.records ≡ m.records
    pub kept : t.locks ≡ m.locks

  give_up-Closed : (text : List ℕ) (m : Server L) → Closed m (after_read i (give_up i text m))
  unfolding after_read give_up
  give_up-Closed text m = ground arith

  hang_up-Closed : (m : Server L) → Closed m (after_read i (hang_up i m))
  unfolding after_read
  hang_up-Closed m = ground arith

  pub answer-Closed : (ret : Ret) (m : Server L) → gives_up ret ≡ true → Closed m (answer i ret m)
  unfolding answer
  answer-Closed bad_read m h = cc
  answer-Closed fine m h = cc
  answer-Closed rejected m h = give_up-Closed _ m
  answer-Closed over_limit m h = give_up-Closed _ m
  answer-Closed negative m h = give_up-Closed _ m
  answer-Closed locked m h = give_up-Closed _ m
  answer-Closed interrupted m h = hang_up-Closed m

  -- A success of the second stage ends the connection too.
  pub fine-Closed :
      (m : Server L) → (m.requests i).wait_for_write ≡ false → Closed m (answer i fine m)
  unfolding answer
  fine-Closed m h = ground arith

  -- A success of the first stage leaves the connection waiting for its command.
  pub record Advanced (m t : Server L) : Type 0 where
    pub others : (j : ℕ) → i ≢ j → t.requests j ≡ m.requests j
    pub same_fd : (t.requests i).conn_fd ≡ (m.requests i).conn_fd
    pub same_id : (t.requests i).id ≡ (m.requests i).id
    pub reads : (t.requests i).wait_for_write ≡ false
    pub marks : t.self_lock ≡ m.self_lock
    pub file : t.records ≡ m.records
    pub kept : t.locks ≡ m.locks

  pub fine-Advanced :
      (m : Server L) → (m.requests i).wait_for_write ≡ true → Advanced m (answer i fine m)
  unfolding answer
  fine-Advanced m h = ground arith

  pub answer-records : (ret : Ret) (m : Server L) → (answer i ret m).records ≡ m.records
  unfolding answer
  answer-records bad_read m = refl
  answer-records fine m = elim (Bool-cases (m.requests i).wait_for_write) [
    | inl waiting ↦ (fine-Advanced m waiting).file
    | inr ready ↦ (fine-Closed m ready).file
  ]
  answer-records rejected m = (answer-Closed rejected m refl).file
  answer-records over_limit m = (answer-Closed over_limit m refl).file
  answer-records negative m = (answer-Closed negative m refl).file
  answer-records locked m = (answer-Closed locked m refl).file
  answer-records interrupted m = (answer-Closed interrupted m refl).file
